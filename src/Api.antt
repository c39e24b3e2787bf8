-- ===== src/Api.antt =====
-- src/slack_runtests/api.py: the single-host API, on its in-memory record of the runs. A reply
-- is what its text tells; Api/Texts has the texts.
mod Tests
pub mod Texts
use slack_runtests.Prelude.{
  Bool-cases, List, Option, Option-cases, Text, [], arith, codes, false, if◌then◌else◌, inl, inr,
  is_some, ltb, none, not, or_default, or_else, refl, some, true, ℕ, ◌++◌, ◌==◌, ◌∷◌, ◌≡◌, int_eq,
  text_eq, nat_eq, option_eq,
}
use slack_runtests.Python.{Bytes, Result, assertion_error, ok, raised, ◌>>=◌}
use slack_runtests.Forms.{Form, get}
use slack_runtests.Parsing.{Args}
use slack_runtests.Gate.{Headers, Message, Settings, check}
use slack_runtests.Store.Rows.{state_eq}

-- A value of `_RUNS`; `github` is the mode that dispatches a workflow.
pub record Run : Type 0 where
  pub correlation_id : Text
  pub product : Text
  pub server : Text
  pub started : ℕ
  pub mode : Text

-- `_RUNS`, in the order of insertion; its keys are the correlation ids.
abbrev pub Runs : Type 0
Runs = List Run

pub data ApiReply : Type 0 where
  http_error : ℕ → Option Message → ApiReply
  ephemeral : Option Message → ApiReply
  no_run : Text → ApiReply
  last_run : Run → ApiReply
  already_queued : Text → ApiReply
  queued_run : Text → ApiReply

-- The background task that is left behind: the run, its arguments, the channel and the person.
pub record Dispatch : Type 0 where
  pub run : Run
  pub args : Args
  pub channel : Text
  pub user : Text

pub record ApiConfig : Type 0 where
  pub settings : Settings
  pub default_channel : Text
  pub mode : Text

-- `_RUNS.get(correlation_id)`
pub run_of : Text → Runs → Option Run
run_of id [] = none
run_of id (r ∷ runs) = if r.correlation_id == id then some r else run_of id runs

abbrev pub trigger_text : Form → Text
trigger_text form =
    or_else (get (codes "trigger_id") form) (or_default (get (codes "text") form) [])

-- `max(…, key=…)` of the runs of a product: the first of the latest ones.
pub last_run_for : Text → Runs → Option Run
last_run_for product [] = none
last_run_for product (r ∷ runs) =
    let later = last_run_for product runs in
    if r.product == product
    then (elim later [
      | none ↦ some r
      | some l ↦ if ltb r.started l.started then some l else some r
    ])
    else later

abbrev pub or_run : Option Run → Option Run → Option Run
or_run none b = b
or_run (some a) b = some a

abbrev pub new_run : ApiConfig → Text → Args → ℕ → Run
new_run cfg id a now = record {
  correlation_id = id;
  product = a.product;
  server = a.server;
  started = now;
  mode = cfg.mode;
}

-- `uuid12 t` is `uuid.uuid5(uuid.NAMESPACE_URL, t).hex[:12]`.
module _ (hmac_hex : Bytes → Bytes → Text) (uuid12 : Text → Text) where
  -- The handler behind the gate: the record, the reply, and the task that is left behind.
  unfoldable pub handle : ApiConfig → Form → Args → ℕ → Runs → Runs × ApiReply × Option Dispatch
  unfolding last_run_for run_of
  handle cfg form a now runs =
      let id = uuid12 (trigger_text form) in
      if a.action == codes "results"
      then (elim (or_run (run_of id runs) (last_run_for a.product runs)) [
        | none ↦ (runs, no_run a.product, none)
        | some r ↦ (runs, last_run r, none)
      ])
      else if is_some (run_of id runs)
      then (runs, already_queued id, none)
      else (
        runs ++ new_run cfg id a now ∷ [],
        queued_run id,
        some (record {
          run = new_run cfg id a now;
          args = a;
          channel =
              or_else (get (codes "channel_name") form)
                (or_else (get (codes "channel_id") form) cfg.default_channel);
          user = or_default (get (codes "user_id") form) [];
        }),
      )

  unfoldable pub commands :
      ApiConfig → Bytes → Headers → ℕ → Runs → Result (Runs × ApiReply × Option Dispatch)
  unfolding handle
  commands cfg body headers now runs = do
    out ← check hmac_hex body headers cfg.settings now
    if not out.is_ok
        then ok (
          runs,
          (if not (out.status == 200)
              then http_error out.status out.message
              else ephemeral out.message),
          none,
        )
        else elim out.args [
          | none ↦ raised assertion_error
          | some a ↦ ok (handle cfg out.form a now runs)
        ]

run_of-new : (r : Run) (runs : Runs) → is_some (run_of r.correlation_id (runs ++ r ∷ [])) ≡ true
unfolding run_of
run_of-new r [] = ground arith
run_of-new r (q ∷ runs) = ground (arith, run_of-new r runs)

run_of-append :
    (id : Text) (r : Run) (runs : Runs)
    → is_some (run_of id runs) ≡ true
    → is_some (run_of id (runs ++ r ∷ [])) ≡ true
unfolding run_of
run_of-append id r [] h = cc
run_of-append id r (q ∷ runs) h = ground (arith, h, run_of-append id r runs)

module _ (hmac_hex : Bytes → Bytes → Text) (uuid12 : Text → Text) (cfg : ApiConfig) where
  handle-keeps :
      (id : Text) (form : Form) (a : Args) (now : ℕ) (runs : Runs)
      → is_some (run_of id runs) ≡ true
      → is_some (run_of id (handle hmac_hex uuid12 cfg form a now runs).0) ≡ true
  unfolding handle
  handle-keeps id form a now runs h =
      let this = uuid12 (trigger_text form) in
      elim (Bool-cases (a.action == codes "results")) [
        | inl asked ↦
            elim (Option-cases (or_run (run_of this runs) (last_run_for a.product runs))) [
              | inl nothing ↦ rw (asked, nothing) h
              | inr (r, found) ↦ rw (asked, found) h
            ]
        | inr ordered ↦ elim (Bool-cases (is_some (run_of this runs))) [
          | inl old ↦ rw (ordered, old) h
          | inr new ↦ rw (ordered, new) (run_of-append id (new_run cfg this a now) runs h)
        ]
      ]

  -- The record after any commands that pass the gate.
  pub handled : List (Form × Args × ℕ) → Runs → Runs
  handled [] runs = runs
  handled ((form, a, now) ∷ more) runs = handled more (handle hmac_hex uuid12 cfg form a now runs).0

  handled-keeps :
      (id : Text) (commands : List (Form × Args × ℕ)) (runs : Runs)
      → is_some (run_of id runs) ≡ true
      → is_some (run_of id (handled commands runs)) ≡ true
  unfolding handled
  handled-keeps id [] runs h = h
  handled-keeps id ((form, a, now) ∷ more) runs h =
      handled-keeps id more _ (handle-keeps id form a now runs h)

  handle-recorded :
      (form : Form) (a : Args) (now : ℕ) (runs : Runs)
      → (a.action == codes "results") ≡ false
      → is_some (run_of (uuid12 (trigger_text form)) (handle hmac_hex uuid12 cfg form a now runs).0)
        ≡ true
  unfolding handle
  handle-recorded form a now runs h =
      elim (Bool-cases (is_some (run_of (uuid12 (trigger_text form)) runs))) [
        | inl old ↦ rw (h, old) old
        | inr new ↦ rw (h, new) (run_of-new (new_run cfg (uuid12 (trigger_text form)) a now) runs)
      ]

  -- A command that was dispatched is not dispatched again: a later command with the same trigger,
  -- whatever commands came in between, adds no run, leaves no task behind and is answered that the
  -- run is queued already.
  pub handle_retry :
      (form form' : Form) (a a' : Args) (now later : ℕ) (others : List (Form × Args × ℕ))
      (runs : Runs)
      → (a.action == codes "results") ≡ false
      → (a'.action == codes "results") ≡ false
      → trigger_text form' ≡ trigger_text form
      → let runs' = handled others (handle hmac_hex uuid12 cfg form a now runs).0 in
        handle hmac_hex uuid12 cfg form' a' later runs'
        ≡ (runs', already_queued (uuid12 (trigger_text form')), none)
  handle_retry form form' a a' now later others runs h h' same =
      let there =
        handled-keeps (uuid12 (trigger_text form)) others _ (handle-recorded form a now runs h) in
      unfold handle in rw (h', same, there) refl
