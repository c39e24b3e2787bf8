-- ===== src/Agent/Tally.antt =====
-- How many messages, results and commands the acts of a test server hold.
use slack_runtests.Prelude.{
  Bool, List, Text, [], arith, count_if, false, inl, inr, none, refl, subst, suc, true, zero, ℕ,
  ◌++◌, ◌+◌, ◌∷◌, ◌≡◌, ◌≤◌,
}
use slack_runtests.Notifier.{Event}
use slack_runtests.Store.{counts}
use slack_runtests.Store.Attempts.{tries}
use slack_runtests.Client.{Called, Called-cases, edge_error, failed_with, returned}
use slack_runtests.Agent.Execute.{
  Act, Report, Trace, runs, says, sleeps, tells_result, tells_started, try_result, ◌then◌,
}

abbrev pub is_message : Act → Bool
is_message (says events) = true
is_message (tells_started job_id) = false
is_message (runs argv) = false
is_message (tells_result job_id report) = false
is_message (sleeps n) = false

abbrev pub is_command : Act → Bool
is_command (says events) = false
is_command (tells_started job_id) = false
is_command (runs argv) = true
is_command (tells_result job_id report) = false
is_command (sleeps n) = false

abbrev pub is_result : Act → Bool
is_result (says events) = false
is_result (tells_started job_id) = false
is_result (runs argv) = false
is_result (tells_result job_id report) = true
is_result (sleeps n) = false

-- The call returned or raised an EdgeError.
abbrev pub IsCaught : Called (Unit {0}) → Type 0
IsCaught (returned u) = Unit
IsCaught (edge_error r) = Unit
IsCaught (failed_with x) = ⊥

-- No exception is let through, and there are a messages, b results and c commands.
pub record IsTallied (a b c : ℕ) (t : Trace) : Type 0 where
  pub ends : t.failure ≡ none
  pub messages : count_if is_message t.acts ≡ a
  pub results : count_if is_result t.acts ≡ b
  pub commands : count_if is_command t.acts ≡ c

pub count_if-append :
    {A : Type 0} (p : A → Bool) (xs ys : List A)
    → count_if p (xs ++ ys) ≡ count_if p xs + count_if p ys
count_if-append p [] ys = omega arith
count_if-append p (x ∷ xs) ys = ground (arith, count_if-append p xs ys)

pub then-IsTallied :
    {a b c a' b' c' n o p : ℕ} (s t : Trace)
    → IsTallied a b c s
    → IsTallied a' b' c' t
    → a + a' ≡ n
    → b + b' ≡ o
    → c + c' ≡ p
    → IsTallied n o p (s then t)
then-IsTallied s t h k e f g = record {
  ends = rw h.ends k.ends;
  messages =
      rw h.ends (omega (arith, count_if-append is_message s.acts t.acts, h.messages, k.messages));
  results =
      rw h.ends (omega (arith, count_if-append is_result s.acts t.acts, h.results, k.results));
  commands =
      rw h.ends (omega (arith, count_if-append is_command s.acts t.acts, h.commands, k.commands));
}

pub try_result-IsTallied :
    (on_result : ℕ → Called (Unit {0})) (job_id : Text) (report : Report)
    → ((n : ℕ) → IsCaught (on_result n))
    → (attempt tries : ℕ)
    → (b : ℕ) × (b ≤ tries)
      × (1 ≤ tries → 1 ≤ b)
      × IsTallied 0 b 0 (try_result on_result job_id report attempt tries)
unfolding try_result
try_result-IsTallied on_result job_id report caught attempt zero = (
  0,
  omega arith,
  (λ h. h),
  record { ends = refl; messages = refl; results = refl; commands = refl },
)
try_result-IsTallied on_result job_id report caught attempt (suc tries) =
    elim (Called-cases (on_result attempt)) [
      | inl (u, e) ↦ rw e (
        1,
        omega arith,
        (λ h. omega arith),
        record { ends = refl; messages = refl; results = refl; commands = refl },
      )
      | inr (inr (x, e)) ↦ absurd (subst IsCaught e (caught attempt))
      | inr (inl (r, e)) ↦
          let (b, few, some_told, counts) =
            try_result-IsTallied on_result job_id report caught (attempt + 1) tries in
          rw e (
            suc b,
            omega arith,
            (λ h. omega arith),
            record {
              ends = counts.ends;
              messages = counts.messages;
              results = omega (arith, counts.results);
              commands = counts.commands;
            },
          )
    ]

-- So many messages and commands, and one to three results.
abbrev pub IsTold : ℕ → ℕ → Trace → Type 0
IsTold a c t = (b : ℕ) × (1 ≤ b) × (b ≤ 3) × IsTallied a b c t

pub then-IsTold :
    {a c a' c' n p : ℕ} (s t : Trace)
    → IsTallied a 0 c s
    → IsTold a' c' t
    → a + a' ≡ n
    → c + c' ≡ p
    → IsTold n p (s then t)
then-IsTold s t h (b, some_told, few, k) e f =
    (b, some_told, few, then-IsTallied s t h k e (omega arith) f)

abbrev pub preceded : Act → Trace → Trace
preceded act t = record t { acts = act ∷ t.acts }

pub says-IsTold :
    {a c : ℕ} (events : List Event) (t : Trace)
    → IsTold a c t
    → IsTold (suc a) c (preceded (says events) t)
says-IsTold events t (b, some_told, few, k) = (
  b,
  some_told,
  few,
  record {
    ends = k.ends;
    messages = omega (arith, k.messages);
    results = k.results;
    commands = k.commands;
  },
)

pub runs-IsTold :
    {a c : ℕ} (argv : List Text) (t : Trace)
    → IsTold a c t
    → IsTold a (suc c) (preceded (runs argv) t)
runs-IsTold argv t (b, some_told, few, k) = (
  b,
  some_told,
  few,
  record {
    ends = k.ends;
    messages = k.messages;
    results = k.results;
    commands = omega (arith, k.commands);
  },
)
