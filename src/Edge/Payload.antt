-- ===== src/Edge/Payload.antt =====
-- What the handlers `enroll` and `result` of edge/edge_server/app.py read of a JSON text, and what
-- test-server/test_server/client.py writes there. A text is read by `json.loads`, a parameter.
pub mod Laws
mod Tests
use slack_runtests.Prelude.{
  Bool, List, Option, Text, [], any, codes, if◌then◌else◌, is_empty, keep_if, leb, ltb, map, negsuc,
  none, not, pos, some, take, ℕ, ℤ, ◌&&◌, ◌==◌, ◌^◌, ◌∷◌, int_eq, option_eq, text_eq, nat_eq,
}
use slack_runtests.Edge.{
  EdgeConfig, Enrolment, Reply, Request, State, authenticate, bad_request, enroll,
}
use slack_runtests.Strings.{strip}
use slack_runtests.Python.{
  Bytes, Result, attribute_error, ok, overflow_error, parse_int, raised, type_error, value_error,
  ◌>>=◌,
}
use slack_runtests.Store.{finish}
use slack_runtests.Identity.{Crypto}
use slack_runtests.Store.Rows.{Outcome, failed}
use slack_runtests.Store.Queries.{beyond}
use slack_runtests.Store.Runners.{runners}

-- The values of `json.loads`; the keys of an object differ.
mutual
  pub data Json (Float : Type 0) : Type 0 where
    null : Json Float
    boolean : Bool → Json Float
    integer : ℤ → Json Float
    real : Float → Json Float
    string : Text → Json Float
    array : Items Float → Json Float
    object : Fields Float → Json Float

  pub data Items (Float : Type 0) : Type 0 where
    end_items : Items Float
    item : Json Float → Items Float → Items Float

  pub data Fields (Float : Type 0) : Type 0 where
    end_fields : Fields Float
    field : Text → Json Float → Fields Float → Fields Float

-- What Python does with numbers and texts: `int(x)` and `float(n)`, which may overflow, `float(s)`,
-- none for a ValueError, `str(v)` of what is no text, and the time in microseconds, none for NaN.
pub record Numbers : Type 1 where
  pub Float : Type 0
  pub trunc : Float → Result ℤ
  pub of_int : ℤ → Result Float
  pub float_of : Text → Option Float
  pub shown : Json Float → Text
  pub micros : Float → Option ℤ

module _ (p : Numbers) where
  abbrev pub Value : Type 0
  Value = Json p.Float

  -- `str(v)`
  unfoldable pub str : Value → Text
  str (string s) = s
  str null = p.shown null
  str (boolean b) = p.shown (boolean b)
  str (integer n) = p.shown (integer n)
  str (real x) = p.shown (real x)
  str (array items) = p.shown (array items)
  str (object fields) = p.shown (object fields)

  -- `int(v)`
  unfoldable pub int_value : Value → Result ℤ
  int_value null = raised type_error
  int_value (boolean b) = ok (pos (if b then 1 else 0))
  int_value (integer n) = ok n
  int_value (real x) = p.trunc x
  int_value (string s) = elim (parse_int s) [ none ↦ raised value_error | some n ↦ ok n ]
  int_value (array items) = raised type_error
  int_value (object fields) = raised type_error

  -- `float(v)`
  unfoldable pub float_value : Value → Result p.Float
  float_value null = raised type_error
  float_value (boolean b) = p.of_int (pos (if b then 1 else 0))
  float_value (integer n) = p.of_int n
  float_value (real x) = ok x
  float_value (string s) = elim (p.float_of s) [ none ↦ raised value_error | some x ↦ ok x ]
  float_value (array items) = raised type_error
  float_value (object fields) = raised type_error

  -- `payload.get(key, default)`, of an object.
  unfoldable pub get_or : Text → Value → Fields p.Float → Value
  get_or key default end_fields = default
  get_or key default (field k v fields) =
      let rest = get_or key default fields in if k == key then v else rest

  -- The attribute `get`, which only an object has.
  abbrev pub fields_of : Value → Result (Fields p.Float)
  fields_of (object fields) = ok fields
  fields_of null = raised attribute_error
  fields_of (boolean b) = raised attribute_error
  fields_of (integer n) = raised attribute_error
  fields_of (real x) = raised attribute_error
  fields_of (string s) = raised attribute_error
  fields_of (array items) = raised attribute_error

  unfoldable pub values_of : Items p.Float → List Value
  values_of end_items = []
  values_of (item v items) = v ∷ values_of items

  unfoldable pub keys_of : Fields p.Float → List Value
  keys_of end_fields = []
  keys_of (field k v fields) = string k ∷ keys_of fields

  -- `for x in v`
  unfoldable pub elements : Value → Result (List Value)
  unfolding values_of keys_of
  elements (string s) = ok (map (λ c. string (c ∷ [])) s)
  elements (array items) = ok (values_of items)
  elements (object fields) = ok (keys_of fields)
  elements null = raised type_error
  elements (boolean b) = raised type_error
  elements (integer n) = raised type_error
  elements (real x) = raised type_error

  -- The payload of `enroll`.
  unfoldable pub enrolment_of : Value → Result Enrolment
  unfolding str get_or elements
  enrolment_of payload = do
    fields ← fields_of payload
    listed ← elements (get_or (codes "labels") (array end_items) fields)
    ok (record {
      runner_id = str (get_or (codes "runner_id") (string []) fields);
      public_key = str (get_or (codes "public_key") (string []) fields);
      labels = keep_if (λ x. not (is_empty (strip x))) (map str listed);
      token = str (get_or (codes "enroll_token") (string []) fields);
    })

  -- The payload of `result`; `zero_float` is `0.0`.
  unfoldable pub outcome_of : p.Float → Value → Result Outcome
  unfolding str get_or int_value float_value
  outcome_of zero_float payload = do
    fields ← fields_of payload
    exit_code ← int_value (get_or (codes "exit_code") (integer (pos 1)) fields)
    passed ← int_value (get_or (codes "passed") (integer (pos 0)) fields)
    n_failed ← int_value (get_or (codes "failed") (integer (pos 0)) fields)
    skipped ← int_value (get_or (codes "skipped") (integer (pos 0)) fields)
    duration ← float_value (get_or (codes "duration") (real zero_float) fields)
    ok (record {
      exit_code = exit_code;
      passed = passed;
      failed = n_failed;
      skipped = skipped;
      duration = p.micros duration;
      summary = take 2000 (str (get_or (codes "summary") (string []) fields));
    })

  -- What the driver of SQLite does with the parameters of the UPDATE: it raises OverflowError for an
  -- integer of more than 64 bits, and UnicodeEncodeError for a text with a lone surrogate.
  abbrev pub is_wide : ℤ → Bool
  is_wide (pos n) = leb (2 ^ 63) n
  is_wide (negsuc n) = leb (2 ^ 63) n

  abbrev pub is_surrogate : ℕ → Bool
  is_surrogate d = leb 0xd800 d && ltb d 0xe000

  unfoldable pub bound : Outcome → Result Outcome
  bound o =
      if any is_wide (o.exit_code ∷ o.passed ∷ o.failed ∷ o.skipped ∷ [])
      then raised overflow_error
      else if any is_surrogate o.summary
      then raised value_error
      else ok o

  -- The outcome of a payload, as `finish` gets it into the database.
  unfoldable pub recorded_outcome : p.Float → Value → Result Outcome
  unfolding outcome_of bound
  recorded_outcome zero_float payload = outcome_of zero_float payload >>= bound

  module _ (c : Crypto) (beyond : ℕ → Bool) (loads : Bytes → Option Value) where
    -- `json.loads(body or b"{}")`
    abbrev pub loaded : Bytes → Option Value
    loaded body = loads (if is_empty body then codes "{}" else body)

    -- `enroll`, the whole handler.
    unfoldable pub enroll_body :
        EdgeConfig → (Text → Option Text) → Request → ℕ → State → Result (State × Reply)
    unfolding enrolment_of
    enroll_body cfg trusted r now s = elim (loaded r.body) [
      | none ↦ ok (s, bad_request)
      | some payload ↦ do e ← enrolment_of payload; enroll c beyond cfg trusted r e now s
    ]

    -- The answers of `result`: 401, 400, and 200 or 409.
    pub data ResultReply : Type 0 where
      result_denied result_unread : ResultReply
      result_recorded : Bool → ResultReply

    -- `result`, the whole handler. What it writes before an exception stays written.
    unfoldable pub result_body : p.Float → Text → Request → ℕ → State → State × Result ResultReply
    unfolding recorded_outcome
    result_body zero_float job_id r now s = elim (authenticate c beyond r now s.runners) [
      | raised x ↦ (s, raised x)
      | ok none ↦ (s, ok result_denied)
      | ok (some caller) ↦
          let t = record s { runners = caller.0 } in
          elim (loaded r.body) [
            | none ↦ (t, ok result_unread)
            | some payload ↦ elim (recorded_outcome zero_float payload) [
              | raised x ↦ (t, raised x)
              | ok o ↦
                  let (jobs, recorded) = finish job_id caller.1.runner_id o now t.jobs in
                  (record t { jobs = jobs }, ok (result_recorded recorded))
            ]
          ]
    ]

  -- The payload of `EdgeClient.enroll`.
  unfoldable pub items_of : List Text → Items p.Float
  items_of [] = end_items
  items_of (s ∷ texts) = item (string s) (items_of texts)

  unfoldable pub enroll_payload : Text → Text → List Text → Text → Value
  unfolding items_of
  enroll_payload runner_id public_key labels token = object (
      field (codes "runner_id") (string runner_id) (
        field (codes "public_key") (string public_key) (
          field (codes "labels") (array (items_of labels))
            (field (codes "enroll_token") (string token) end_fields))))

  -- The payload of `EdgeClient.result`, from the calls of `_safe_result` in agent.py.
  unfoldable pub result_payload : ℤ → ℤ → ℤ → ℤ → p.Float → Text → Value
  result_payload exit_code passed n_failed skipped duration summary = object (
      field (codes "exit_code") (integer exit_code) (
        field (codes "passed") (integer passed) (
          field (codes "failed") (integer n_failed) (
            field (codes "skipped") (integer skipped) (
              field (codes "duration") (real duration)
                (field (codes "summary") (string summary) end_fields))))))
