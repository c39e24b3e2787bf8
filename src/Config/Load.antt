-- ===== src/Config/Load.antt =====
-- What the three programs read of the environment: edge/edge_server/config.py,
-- test-server/test_server/config.py and src/slack_runtests/config.py. A missing variable is none.
use slack_runtests.Notifier.{default_channel}
use slack_runtests.Prelude.{
  Bool, List, Option, Text, [], codes, if◌then◌else◌, is_empty, none, not, or_default, some, ℕ, ℤ,
  ◌&&◌, ◌*◌, ◌==◌, ◌∷◌, text_eq, nat_eq, int_eq, option_eq,
}
use slack_runtests.Config.{csv, default_runner_id}
use slack_runtests.Strings.{strip}
use slack_runtests.Python.{Result, ok, ◌>>=◌}
use slack_runtests.Gate.{Settings}

abbrev pub Environment : Type 0
Environment = Text → Option Text

-- `os.environ.get(name, default)`
abbrev pub environ : Environment → Text → Text → Text
environ env name default = or_default (env name) default

-- Python's floats: the numbers in the code, `float(text)`, none where it raises a ValueError, and
-- `int(x)`, which raises for what is not finite.
pub record Floats : Type 1 where
  pub Float : Type 0
  pub number : ℕ → Float
  pub float_of : Text → Option Float
  pub int_of : Float → Result ℤ

-- `s.rstrip(c)` for a character.
pub rstrip_char : ℕ → Text → Text
rstrip_char c [] = []
rstrip_char c (d ∷ s) =
    let rest = rstrip_char c s in if is_empty rest && d == c then [] else d ∷ rest

-- src/slack_runtests/config.py
pub record Config : Type 0 where
  pub mode : Text
  pub signing_secret : Text
  pub default_channel : Text
  pub allowed_team : Text
  pub allowed_channels : List Text
  pub allowed_users : List Text
  pub suite_root : Text
  pub github_repo : Text
  pub github_workflow : Text
  pub github_ref : Text
  pub github_token : Text

unfoldable pub load : Environment → Config
unfolding csv
load env = record {
  mode = environ env (codes "RUNTESTS_MODE") (codes "local");
  signing_secret = environ env (codes "SLACK_SIGNING_SECRET") [];
  default_channel = environ env (codes "SLACK_DEFAULT_CHANNEL") default_channel;
  allowed_team = environ env (codes "SLACK_TEAM_ID") [];
  allowed_channels = csv (env (codes "RUNTESTS_CHANNELS")) [];
  allowed_users = csv (env (codes "RUNTESTS_USERS")) [];
  suite_root = environ env (codes "RUNTESTS_SUITE_ROOT") (codes "tests/sample");
  github_repo = environ env (codes "GITHUB_REPO") [];
  github_workflow = environ env (codes "GITHUB_WORKFLOW_FILE") (codes "runtests.yml");
  github_ref = environ env (codes "GITHUB_REF_NAME") (codes "main");
  github_token = environ env (codes "GITHUB_TOKEN") [];
}

-- `Config.verify_signatures`
unfoldable pub verify_signatures : Config → Bool
verify_signatures cfg = not (is_empty cfg.signing_secret)

-- What the gate reads of it.
abbrev pub settings_of : Config → Settings
settings_of cfg = record {
  signing_secret = cfg.signing_secret;
  allowed_team = cfg.allowed_team;
  allowed_channels = cfg.allowed_channels;
  allowed_users = cfg.allowed_users;
}

module _ (f : Floats) where
  -- `_num`
  unfoldable pub num : Environment → Text → ℕ → f.Float
  num env name default =
      let raw = environ env name [] in
      if is_empty raw
      then f.number default
      else elim (f.float_of raw) [ none ↦ f.number default | some x ↦ x ]

  -- edge/edge_server/config.py
  pub record EdgeConfig : Type 0 where
    pub signing_secret : Text
    pub default_channel : Text
    pub allowed_team : Text
    pub allowed_channels : List Text
    pub allowed_users : List Text
    pub db_path : Text
    pub key_path : Text
    pub trusted_keys_dir : Text
    pub enroll_token : Text
    pub admin_token : Text
    pub heartbeat_interval : f.Float
    pub offline_after : f.Float
    pub poll_timeout : f.Float
    pub lease_seconds : f.Float
    pub max_attempts : ℤ

  unfoldable pub load_edge : Environment → Result EdgeConfig
  unfolding csv num
  load_edge env = do
    max_attempts ← f.int_of (num env (codes "JOB_MAX_ATTEMPTS") 2)
    ok (record {
      signing_secret = environ env (codes "SLACK_SIGNING_SECRET") [];
      default_channel = environ env (codes "SLACK_DEFAULT_CHANNEL") default_channel;
      allowed_team = environ env (codes "SLACK_TEAM_ID") [];
      allowed_channels = csv (env (codes "RUNTESTS_CHANNELS")) [];
      allowed_users = csv (env (codes "RUNTESTS_USERS")) [];
      db_path = environ env (codes "EDGE_DB_PATH") (codes "data/edge.db");
      key_path = environ env (codes "EDGE_KEY_PATH") (codes "keys/edge_ed25519.pem");
      trusted_keys_dir = environ env (codes "EDGE_TRUSTED_KEYS_DIR") (codes "trusted_runners");
      enroll_token = environ env (codes "RUNNER_ENROLL_TOKEN") [];
      admin_token = environ env (codes "EDGE_ADMIN_TOKEN") [];
      heartbeat_interval = num env (codes "RUNNER_HEARTBEAT_INTERVAL") 30;
      offline_after = num env (codes "RUNNER_OFFLINE_AFTER") 90;
      poll_timeout = num env (codes "EDGE_POLL_TIMEOUT") 25;
      lease_seconds = num env (codes "JOB_LEASE_SECONDS") 120;
      max_attempts = max_attempts;
    })

  -- `EdgeConfig.verify_signatures`
  unfoldable pub edge_verify_signatures : EdgeConfig → Bool
  edge_verify_signatures cfg = not (is_empty cfg.signing_secret)

  -- What the gate reads of it.
  abbrev pub edge_settings_of : EdgeConfig → Settings
  edge_settings_of cfg = record {
    signing_secret = cfg.signing_secret;
    allowed_team = cfg.allowed_team;
    allowed_channels = cfg.allowed_channels;
    allowed_users = cfg.allowed_users;
  }

  -- test-server/test_server/config.py
  pub record RunnerConfig : Type 0 where
    pub edge_url : Text
    pub runner_id : Text
    pub key_path : Text
    pub labels : List Text
    pub enroll_token : Text
    pub edge_fingerprint : Text
    pub workdir : Text
    pub suite_root : Text
    pub job_timeout : f.Float
    pub heartbeat_interval : f.Float
    pub retry_seconds : f.Float
    pub max_retry_seconds : f.Float

  -- `beyond` is `str.isalnum` beyond ASCII, and `hostname` is what the machine answers.
  unfoldable pub load_runner : (ℕ → Bool) → Text → Environment → RunnerConfig
  unfolding csv num default_runner_id
  load_runner beyond hostname env = record {
    edge_url = rstrip_char b'/' (environ env (codes "EDGE_URL") (codes "http://127.0.0.1:8500"));
    runner_id = default_runner_id beyond (env (codes "RUNNER_ID")) hostname;
    key_path = environ env (codes "RUNNER_KEY_PATH") (codes "keys/runner_ed25519.pem");
    labels = csv (env (codes "RUNNER_LABELS")) [];
    enroll_token = environ env (codes "RUNNER_ENROLL_TOKEN") [];
    edge_fingerprint = strip (environ env (codes "EDGE_FINGERPRINT") []);
    workdir = environ env (codes "RUNNER_WORKDIR") (codes ".");
    suite_root = environ env (codes "RUNTESTS_SUITE_ROOT") (codes "tests/sample");
    job_timeout = num env (codes "RUNNER_JOB_TIMEOUT") (15 * 60);
    heartbeat_interval = num env (codes "RUNNER_HEARTBEAT_INTERVAL") 30;
    retry_seconds = num env (codes "RUNNER_RETRY_SECONDS") 5;
    max_retry_seconds = num env (codes "RUNNER_MAX_RETRY_SECONDS") 60;
  }
