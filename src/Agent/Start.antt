-- ===== src/Agent/Start.antt =====
-- The start of `run_forever` of test-server/test_server/agent.py: what it reads of the payload that
-- ended the enrolment.
use slack_runtests.Prelude.{Text, Text-discrete, [], codes, pos, refl, ℕ_discrete, ◌≡◌}
use slack_runtests.Python.{Result, ok, ◌>>=◌}
use slack_runtests.Notifier.Console.{configured}
use slack_runtests.Edge.Payload.{
  Numbers, Value, end_fields, field, fields_of, float_value, get_or, integer, object, real, str,
  string,
}

module _ (p : Numbers) where
  -- `float(settings.get("poll_timeout", 25))`, and the same for the heartbeats, with the interval of
  -- the configuration where the edge names none.
  unfoldable pub intervals_of : p.Float → Value p → Result (p.Float × p.Float)
  unfolding get_or float_value
  intervals_of configured payload = do
    settings ← fields_of p payload
    poll_timeout ← float_value p (get_or p (codes "poll_timeout") (integer (pos 25)) settings)
    interval ← float_value p (get_or p (codes "heartbeat_interval") (real configured) settings)
    ok (poll_timeout, interval)

  -- The payload of `enroll` in edge/edge_server/app.py.
  unfoldable pub welcome_payload : Text → Text → p.Float → p.Float → p.Float → Value p
  welcome_payload runner_id edge_public_key heartbeat_interval poll_timeout lease_seconds = object (
      field (codes "runner_id") (string runner_id) (
        field (codes "edge_public_key") (string edge_public_key) (
          field (codes "heartbeat_interval") (real heartbeat_interval) (
            field (codes "poll_timeout") (real poll_timeout)
              (field (codes "lease_seconds") (real lease_seconds) end_fields)))))

  -- `str(data.get("edge_public_key", ""))`
  unfoldable pub edge_key_of : Value p → Result Text
  unfolding get_or str
  edge_key_of payload = do
    fields ← fields_of p payload
    ok (str p (get_or p (codes "edge_public_key") (string []) fields))

  -- A test server takes over the intervals and the key of the edge that enrolled it, whatever its
  -- own configuration says.
  intervals_of-welcome_payload :
      (configured : p.Float) (runner_id edge_public_key : Text)
      (heartbeat_interval poll_timeout lease_seconds : p.Float)
      → let payload =
          welcome_payload runner_id edge_public_key heartbeat_interval poll_timeout lease_seconds in
        (intervals_of configured payload ≡ ok (poll_timeout, heartbeat_interval))
        × (edge_key_of payload ≡ ok edge_public_key)
  unfolding intervals_of welcome_payload edge_key_of get_or float_value str Text-discrete ℕ_discrete
  intervals_of-welcome_payload configured runner_id edge_public_key heartbeat_interval poll_timeout
        lease_seconds =
      (refl, refl)
