-- ===== src/Config/Examples.antt =====
-- An environment with two origins, an empty part and spaces, an unknown policy, and a heartbeat that
-- overflows; and the theorem at it.
use live_collab.Base.{◌≡◌, refl, true, false, [], ◌∷◌, Str, lit, str_eq, if◌then◌else◌}
use live_collab.Config.{load_config, split_and_trim, env_bool}
use live_collab.Config.Valid.{IsValid, load_config-IsValid}

abbrev environment : Str → Str
environment name =
    if str_eq name (lit "ALLOWED_ORIGINS")
    then lit " https://a.example ,, https://b.example"
    else if str_eq name (lit "LIVECOLLAB_STALE_WRITE_POLICY")
    then lit "merge"
    else if str_eq name (lit "LIVECOLLAB_PRESENCE_HEARTBEAT_MS")
    then lit "9223372036854775807"
    else []

load_config-IsValid_example : IsValid (load_config environment (lit "host"))
load_config-IsValid_example = load_config-IsValid environment (lit "host")

two_origins :
    split_and_trim (lit " https://a.example ,, https://b.example")
    ≡ lit "https://a.example" ∷ lit "https://b.example" ∷ []
unfolding split_and_trim str_eq
two_origins = refl

upper_case : env_bool (lit " TRUE ") false ≡ true
unfolding env_bool str_eq
upper_case = refl
