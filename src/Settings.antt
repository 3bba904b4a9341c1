-- ===== src/Settings.antt =====
-- internal/config/config.go: the settings, from the environment. `getenv` stands for os.Getenv.
use redi_go.Prelude.{Bytes, codes, [], ◌∷◌, ◌≡◌, refl, Option, none, some}
use redi_go.Prelude.Int.{ℤ, pos}
use redi_go.Go.Decimal.{parse_int, parse_uint, digits_value}
use redi_go.Go.Float.{Floats}

abbrev non_empty : Bytes → Bytes → Bytes
non_empty [] default_value = default_value
non_empty (c ∷ s) default_value = c ∷ s

unfoldable pub get_env : (Bytes → Bytes) → Bytes → Bytes → Bytes
get_env getenv key default_value = non_empty (getenv key) default_value

abbrev or_default {ℓ} : {A : Type ℓ} → Option A → A → A
or_default none default_value = default_value
or_default (some a) default_value = a

-- An empty value is not a number, so it gives the default value too.
unfoldable pub get_env_as_int : (Bytes → Bytes) → Bytes → ℤ → ℤ
get_env_as_int getenv key default_value = elim (getenv key) [
  | [] ↦ default_value
  | c ∷ s ↦ or_default (parse_int (c ∷ s)) default_value
]

module _ (F : Floats) where
  unfoldable pub get_env_as_float : (Bytes → Bytes) → Bytes → F.Float → F.Float
  get_env_as_float getenv key default_value = elim (getenv key) [
    | [] ↦ default_value
    | c ∷ s ↦ or_default (F.parse_float (c ∷ s)) default_value
  ]

  pub record Settings : Type 0 where
    pub protocol : Bytes
    pub port : Bytes
    pub max_connection : ℤ
    pub max_key_number : ℤ
    pub eviction_ratio : F.Float
    pub eviction_policy : Bytes
    pub epool_max_size : ℤ
    pub epool_lru_sample_size : ℤ
    pub http_port : Bytes
    pub http_read_timeout : ℤ
    pub http_write_timeout : ℤ
    pub listener_number : ℤ
    pub redis_conn_timeout : ℤ
    pub redis_rw_timeout : ℤ
    pub redis_addr : Bytes

  unfoldable pub settings : (Bytes → Bytes) → Settings
  unfolding get_env get_env_as_int get_env_as_float
  settings getenv = record {
    protocol = get_env getenv (codes "REDIS_PROTOCOL") (codes "tcp");
    port = get_env getenv (codes "REDIS_PORT") (codes ":6379");
    max_connection = get_env_as_int getenv (codes "REDIS_MAX_CONNECTION") (pos 20000);
    max_key_number = get_env_as_int getenv (codes "REDIS_MAX_KEY_NUMBER") (pos 1000000);
    eviction_ratio =
        get_env_as_float getenv (codes "REDIS_EVICTION_RATIO") (F.literal (codes "0.1"));
    eviction_policy = get_env getenv (codes "REDIS_EVICTION_POLICY") (codes "allkeys-random");
    epool_max_size = get_env_as_int getenv (codes "REDIS_EPOOL_MAX_SIZE") (pos 16);
    epool_lru_sample_size = get_env_as_int getenv (codes "REDIS_EPOOL_LRU_SAMPLE_SIZE") (pos 5);
    http_port = get_env getenv (codes "HTTP_PORT") (codes ":8080");
    http_read_timeout = get_env_as_int getenv (codes "HTTP_READ_TIMEOUT") (pos 15);
    http_write_timeout = get_env_as_int getenv (codes "HTTP_WRITE_TIMEOUT") (pos 15);
    listener_number = get_env_as_int getenv (codes "LISTENER_NUM") (pos 4);
    redis_conn_timeout = get_env_as_int getenv (codes "REDIS_CONN_TIMEOUT") (pos 5);
    redis_rw_timeout = get_env_as_int getenv (codes "REDIS_RW_TIMEOUT") (pos 10);
    redis_addr = get_env getenv (codes "REDIS_ADDR") (codes "localhost:6379");
  }

get_env_as_int_test : get_env_as_int (λ key. codes "12") (codes "LISTENER_NUM") (pos 4) ≡ pos 12
unfolding get_env_as_int parse_int parse_uint digits_value
get_env_as_int_test = refl

get_env_as_int_not_a_number :
    get_env_as_int (λ key. codes "x") (codes "LISTENER_NUM") (pos 4) ≡ pos 4
unfolding get_env_as_int parse_int parse_uint digits_value
get_env_as_int_not_a_number = refl
