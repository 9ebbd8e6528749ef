-- ===== src/Config.antt =====
-- LoadConfig of config.go with splitAndTrim, envBool and envInt64. The environment is ASCII text, a
-- variable that is not set is empty, and the host name is empty where os.Hostname fails.
pub mod Valid
pub mod Examples
use live_collab.Base.{
  ℕ, ◌+◌, ◌*◌, ◌%◌, Bool, true, false, not, ◌&&◌, ◌||◌, List, [], ◌∷◌, ◌++◌, map, Int64, Str, lit,
  str_eq, contains, leb, ◌==◌, if◌then◌else◌,
}
use live_collab.Base.Result.{Result, ok, err, parse_error}
use live_collab.Base.Decimal.{parse_int}
use live_collab.Message.{StaleWritePolicy}
use live_collab.Presence.{PresenceTiming, with_defaults}
use live_collab.Store.{stale_write_reject}

abbrev pub stale_write_accept : StaleWritePolicy
stale_write_accept = lit "accept"

-- Config.
pub record Config : Type 0 where
  pub port : Str
  pub allowed_origins : List Str
  pub stale_write_policy : StaleWritePolicy
  pub trace_file : Str
  pub redis_addr : Str
  pub instance_id : Str
  pub service_name : Str
  pub otlp_endpoint : Str
  pub json_logs : Bool
  pub enable_debug_faults : Bool
  pub redis_delay_ms : Int64
  pub presence : PresenceTiming

abbrev pub is_space : ℕ → Bool
is_space c = c == 32 || (leb 9 c && leb c 13)

-- strings.TrimSpace.
unfoldable pub trim_left : Str → Str
trim_left [] = []
trim_left (c ∷ s) = let rest = trim_left s in if is_space c then rest else c ∷ s

unfoldable pub trim_right : Str → Str
trim_right [] = []
trim_right (c ∷ s) =
    let rest = trim_right s in if is_space c && str_eq rest [] then [] else c ∷ rest

unfoldable pub trim_space : Str → Str
unfolding trim_left trim_right
trim_space s = trim_right (trim_left s)

-- strings.ToLower.
unfoldable pub to_lower : Str → Str
to_lower s = map (λ c. if leb b'A' c && leb c b'Z' then c + 32 else c) s

-- strings.Split by a comma.
abbrev pub in_first : ℕ → List Str → List Str
in_first c [] = (c ∷ []) ∷ []
in_first c (part ∷ parts) = (c ∷ part) ∷ parts

unfoldable pub split_commas : Str → List Str
split_commas [] = [] ∷ []
split_commas (c ∷ s) =
    let parts = split_commas s in if c == b',' then [] ∷ parts else in_first c parts

-- splitAndTrim.
unfoldable pub trimmed_parts : List Str → List Str
unfolding trim_space
trimmed_parts [] = []
trimmed_parts (part ∷ parts) =
    let rest = trimmed_parts parts in
    if str_eq (trim_space part) [] then rest else trim_space part ∷ rest

unfoldable pub split_and_trim : Str → List Str
unfolding trimmed_parts split_commas
split_and_trim value = trimmed_parts (split_commas value)

-- strconv.ParseBool.
unfoldable pub parse_bool : Str → Result Bool
parse_bool s =
    if contains s (lit "1" ∷ lit "t" ∷ lit "T" ∷ lit "TRUE" ∷ lit "true" ∷ lit "True" ∷ [])
    then ok true
    else if contains s (lit "0" ∷ lit "f" ∷ lit "F" ∷ lit "FALSE" ∷ lit "false" ∷ lit "False" ∷ [])
    then ok false
    else err parse_error

abbrev pub or_else {ℓ} : {A : Type ℓ} → Result A → A → A
or_else (ok a) fallback = a
or_else (err e) fallback = fallback

-- if value == "" { value = fallback }
abbrev pub or_text : Str → Str → Str
or_text value fallback = if str_eq value [] then fallback else value

-- envBool and envInt64, on the value of the variable.
unfoldable pub env_bool : Str → Bool → Bool
unfolding trim_space to_lower parse_bool
env_bool value fallback =
    let trimmed = trim_space (to_lower value) in
    if str_eq trimmed [] then fallback else or_else (parse_bool trimmed) fallback

unfoldable pub env_int64 : Str → Int64 → Int64
unfolding trim_space parse_int
env_int64 value fallback =
    let trimmed = trim_space value in
    if str_eq trimmed [] then fallback else or_else (parse_int trimmed) fallback

-- time.Duration(ms) * time.Millisecond with Go's wrap-around.
abbrev pub duration_of : Int64 → Int64
duration_of ms = (ms * 1000000) % 0x10000000000000000

abbrev pub or_origins : List Str → List Str
or_origins [] = lit "http://localhost:5173" ∷ lit "http://127.0.0.1:5173" ∷ []
or_origins (origin ∷ origins) = origin ∷ origins

abbrev pub or_reject : StaleWritePolicy → StaleWritePolicy
or_reject policy =
    if not (str_eq policy stale_write_accept) && not (str_eq policy stale_write_reject)
    then stale_write_reject
    else policy

-- LoadConfig.
unfoldable pub load_config : (Str → Str) → (hostname : Str) → Config
unfolding split_and_trim trim_space to_lower env_bool env_int64 with_defaults
load_config getenv hostname =
    let port = or_text (trim_space (getenv (lit "PORT"))) (lit "8080") in
    record {
      port = port;
      allowed_origins = or_origins (split_and_trim (getenv (lit "ALLOWED_ORIGINS")));
      stale_write_policy =
          or_reject (to_lower (trim_space (getenv (lit "LIVECOLLAB_STALE_WRITE_POLICY"))));
      trace_file = trim_space (getenv (lit "LIVECOLLAB_TRACE_FILE"));
      redis_addr = trim_space (getenv (lit "LIVECOLLAB_REDIS_ADDR"));
      instance_id =
          or_text (trim_space (getenv (lit "LIVECOLLAB_INSTANCE_ID")))
            (or_text hostname (lit "local") ++ b':' ∷ port);
      service_name =
          or_text (trim_space (getenv (lit "OTEL_SERVICE_NAME"))) (lit "livecollab-backend");
      otlp_endpoint = trim_space (getenv (lit "OTEL_EXPORTER_OTLP_ENDPOINT"));
      json_logs = env_bool (getenv (lit "LIVECOLLAB_JSON_LOGS")) true;
      enable_debug_faults = env_bool (getenv (lit "LIVECOLLAB_ENABLE_DEBUG_FAULTS")) false;
      redis_delay_ms = env_int64 (getenv (lit "LIVECOLLAB_REDIS_DELAY_MS")) 0;
      presence = with_defaults (record {
        heartbeat_interval =
            duration_of (env_int64 (getenv (lit "LIVECOLLAB_PRESENCE_HEARTBEAT_MS")) 10000);
        lease_duration =
            duration_of (env_int64 (getenv (lit "LIVECOLLAB_PRESENCE_LEASE_MS")) 30000);
        sweep_interval = duration_of (env_int64 (getenv (lit "LIVECOLLAB_PRESENCE_SWEEP_MS")) 5000);
      });
    }
