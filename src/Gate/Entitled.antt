-- ===== src/Gate/Entitled.antt =====
-- The gate: the checks of the workspace, the channel and the person.
use slack_runtests.Prelude.{
  Bool, List, Option, Text, [], arith, codes, contains, false, if◌then◌else◌, inl, inr, is_empty,
  none, not, refl, some, true, ◌&&◌, ◌==◌, ◌∷◌, ◌≡◌, ◌⊎◌, text_eq, nat_eq, int_eq, option_eq,
}
use slack_runtests.Gate.{Message, Settings, is_outside, objection}
use slack_runtests.Forms.{Form, get}

-- A list that is not set lets everyone pass; otherwise the value has to be given and to be in it.
abbrev pub MayPass : List Text → Option Text → Type 0
MayPass allowed v =
    (is_empty allowed ≡ true) ⊎ ((c : Text) × (v ≡ some c) × (contains allowed c ≡ true))

-- The person, the channel and the workspace of a form are allowed.
pub record IsEntitled (s : Settings) (form : Form) : Type 0 where
  pub team : (is_empty s.allowed_team ≡ true) ⊎ (get (codes "team_id") form ≡ some s.allowed_team)
  pub channel : MayPass s.allowed_channels (get (codes "channel_id") form)
  pub user : MayPass s.allowed_users (get (codes "user_id") form)

passes :
    (l : List Text) (v : Option Text) → (not (is_empty l) && is_outside l v) ≡ false → MayPass l v
passes [] v h = inl refl
passes (x ∷ l) none h = cc
passes (x ∷ l) (some c) h = inr (c, refl, ground arith)

passes-back :
    (l : List Text) (v : Option Text) → MayPass l v → (not (is_empty l) && is_outside l v) ≡ false
passes-back l v (inl e) = rw e refl
passes-back [] v (inr (c, e, h)) = refl
passes-back (x ∷ l) v (inr (c, e, h)) = rw (e, h) refl

team_passes :
    (t : Text) (v : Option Text)
    → (not (is_empty t) && not (v == some t)) ≡ false
    → (is_empty t ≡ true) ⊎ (v ≡ some t)
team_passes [] v h = inl refl
team_passes (c ∷ t) v h = inr (ground arith)

team_passes-back :
    (t : Text) (v : Option Text)
    → (is_empty t ≡ true) ⊎ (v ≡ some t)
    → (not (is_empty t) && not (v == some t)) ≡ false
team_passes-back t v (inl e) = rw e refl
team_passes-back t v (inr e) = ground (arith, e)

no_objection :
    (a b c : Bool) (x y z : Message)
    → (if a then some x else if b then some y else if c then some z else none) ≡ none
    → (a ≡ false) × (b ≡ false) × (c ≡ false)
no_objection true b c x y z h = cc
no_objection false true c x y z h = cc
no_objection false false true x y z h = cc
no_objection false false false x y z h = (refl, refl, refl)

pub objection-IsEntitled :
    (s : Settings) (form : Form) → objection s form ≡ none → IsEntitled s form
unfolding objection
objection-IsEntitled s form h =
    let (team, channel, user) = no_objection _ _ _ _ _ _ h in
    record {
      team = team_passes s.allowed_team _ team;
      channel = passes s.allowed_channels _ channel;
      user = passes s.allowed_users _ user;
    }

pub IsEntitled-objection :
    (s : Settings) (form : Form) → IsEntitled s form → objection s form ≡ none
unfolding objection
IsEntitled-objection s form h =
    rw
      (
        team_passes-back s.allowed_team _ h.team,
        passes-back s.allowed_channels _ h.channel,
        passes-back s.allowed_users _ h.user,
      )
      refl
