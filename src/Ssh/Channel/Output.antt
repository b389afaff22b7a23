-- ===== src/Ssh/Channel/Output.antt =====
-- What `execOnClient` makes of the output and the exit code of a command.
use nginx_admin.Common.{
  ℕ, zero, suc, ◌≡◌, refl, ◌∙◌, ap, true, false, Option, List, [], ◌∷◌, ◌++◌, append_assoc,
  append-nil, Text, text, trim, arith, ◌<◌, ◌==◌, none, some, some_path, sym, subst, Bool-cases,
  inl, inr, starts_with, decimal,
}
use nginx_admin.Secrets.{
  Value, undefined, null, bool, num, str, date, arr, obj, Fields, redact_potential_secrets,
}
use nginx_admin.Effects.{remote_error, Result, ok, fail}
use nginx_admin.Ssh.Channel.{
  Buffer, on_close, settle_once, Parsed, text_field, both, error_fields, or_text, Channel, Event,
  exec_opened, out_chunk, err_chunk, close, start, parse_remote_error, exit_failure, step, run,
}

-- The output of a command, in the order in which its pieces arrive.
pub data Chunk : Type 0 where
  out err : Buffer → Chunk

abbrev pub event_of : Chunk → Event
event_of (out t) = out_chunk t
event_of (err t) = err_chunk t

abbrev pub events_of : List Chunk → List Event
events_of [] = []
events_of (k ∷ ks) = event_of k ∷ events_of ks

-- What the chunks of one output say, each decoded by itself.
abbrev pub all_out : (Buffer → Text) → List Chunk → Text
all_out decode [] = []
all_out decode (out t ∷ ks) = decode t ++ all_out decode ks
all_out decode (err t ∷ ks) = all_out decode ks

abbrev pub all_err : (Buffer → Text) → List Chunk → Text
all_err decode [] = []
all_err decode (out t ∷ ks) = all_err decode ks
all_err decode (err t ∷ ks) = decode t ++ all_err decode ks

abbrev opened : Text → Text → Channel
opened o e = record {
  has_stream = true;
  exec_pending = false;
  settled = false;
  timer = true;
  listening = true;
  stdout = o;
  stderr = e;
  closes = 0;
  outcomes = [];
}

-- The trimmed standard error is the JSON text of an object with a text as its message and a text as
-- its code.
pub record Report (json_parse : Text → Option Value) (stderr message code : Text) : Type 0 where
  pub fields : Fields
  pub opens : starts_with (trim stderr) (text "{") ≡ true
  pub parsed : json_parse (trim stderr) ≡ some (obj fields)
  pub message_in : text_field (text "message") fields ≡ some message
  pub code_in : text_field (text "code") fields ≡ some code

-- How a command that exits with `code` settles the promise.
pub data Exit (json_parse : Text → Option Value) (code : ℕ) (stdout stderr : Text)
    : Result Text → Type 0 where
  succeeds : code ≡ 0 → Exit json_parse code stdout stderr (ok (trim stdout))
  reports :
      (message remote_code : Text)
      → 0 < code
      → Report json_parse stderr message remote_code
      → Exit json_parse code stdout stderr
          (fail (remote_error (redact_potential_secrets message) remote_code))
  complains :
      (c : ℕ) (said : Text)
      → 0 < code
      → ((message remote_code : Text) → ¬ Report json_parse stderr message remote_code)
      → redact_potential_secrets stderr ≡ c ∷ said
      → Exit json_parse code stdout stderr (fail (remote_error (c ∷ said) (text "SSH_NON_ZERO")))
  says_nothing :
      0 < code
      → ((message remote_code : Text) → ¬ Report json_parse stderr message remote_code)
      → redact_potential_secrets stderr ≡ []
      → Exit json_parse code stdout stderr
          (fail (remote_error (text "SSH exited with code " ++ decimal code) (text "SSH_NON_ZERO")))

both-some :
    (m c : Option Text) (message code : Text)
    → both m c ≡ some (message, code)
    → (said : Text) × (m ≡ some said) × (c ≡ some code) × (redact_potential_secrets said ≡ message)
both-some (some said) (some k) message code e =
    (said, refl, ap some (ap (λ p. p.1) (some_path e)), ap (λ p. p.0) (some_path e))
both-some (some said) none message code e = cc
both-some none c message code e = cc

module _ (json_parse : Text → Option Value) (stderr : Text) where
  error_fields-Report :
      (v : Option Value) (message code : Text)
      → starts_with (trim stderr) (text "{") ≡ true
      → json_parse (trim stderr) ≡ v
      → error_fields v ≡ some (message, code)
      → (said : Text) × Report json_parse stderr said code
        × (redact_potential_secrets said ≡ message)
  unfolding error_fields
  error_fields-Report none message code opens parsed e = cc
  error_fields-Report (some undefined) message code opens parsed e = cc
  error_fields-Report (some null) message code opens parsed e = cc
  error_fields-Report (some (bool b)) message code opens parsed e = cc
  error_fields-Report (some (num n)) message code opens parsed e = cc
  error_fields-Report (some (str t)) message code opens parsed e = cc
  error_fields-Report (some (date d)) message code opens parsed e = cc
  error_fields-Report (some (arr is)) message code opens parsed e = cc
  error_fields-Report (some (obj fs)) message code opens parsed e =
      let (said, m, c, same) =
        both-some (text_field (text "message") fs) (text_field (text "code") fs) message code e in
      (
        said,
        record { fields = fs; opens = opens; parsed = parsed; message_in = m; code_in = c },
        same,
      )

  parse_remote_error-Report :
      (message code : Text)
      → parse_remote_error json_parse stderr ≡ some (message, code)
      → (said : Text) × Report json_parse stderr said code
        × (redact_potential_secrets said ≡ message)
  unfolding parse_remote_error
  parse_remote_error-Report message code e =
      elim (Bool-cases (starts_with (trim stderr) (text "{"))) [
        | inl opens ↦
            error_fields-Report (json_parse (trim stderr)) message code opens refl (rw opens at e)
        | inr bad ↦ let h = rw bad at e in cc
      ]

  Report-parse_remote_error :
      (said code : Text)
      → Report json_parse stderr said code
      → parse_remote_error json_parse stderr ≡ some (redact_potential_secrets said, code)
  unfolding parse_remote_error error_fields
  Report-parse_remote_error said code r = rw (r.opens, r.parsed, r.message_in, r.code_in) refl

  plain-Exit :
      (code : ℕ) (stdout said : Text)
      → redact_potential_secrets stderr ≡ said
      → 0 < code
      → ((message remote_code : Text) → ¬ Report json_parse stderr message remote_code)
      → Exit json_parse code stdout stderr (
          fail (
            remote_error
              (or_text said (text "SSH exited with code " ++ decimal code))
              (text "SSH_NON_ZERO")))
  plain-Exit code stdout [] e h k = says_nothing h k e
  plain-Exit code stdout (c ∷ said) e h k = complains c said h k e

  failure-Exit :
      (code : ℕ) (stdout : Text) (p : Parsed)
      → parse_remote_error json_parse stderr ≡ p
      → 0 < code
      → Exit json_parse code stdout stderr (fail (exit_failure json_parse code stderr p))
  failure-Exit code stdout (some (message, remote_code)) e h =
      let (said, report, same) = parse_remote_error-Report message remote_code e in
      subst (λ m. Exit json_parse code stdout stderr (fail (remote_error m remote_code))) same
        (reports said remote_code h report)
  failure-Exit code stdout none e h =
      plain-Exit code stdout (redact_potential_secrets stderr) refl h (λ message remote_code r.
        let q = sym e ∙ Report-parse_remote_error message remote_code r in cc)

module _ (json_parse : Text → Option Value) (decode : Buffer → Text) where
  run-events_of :
      (ks : List Chunk) (es : List Event) (o e : Text)
      → run json_parse decode (opened o e) (events_of ks ++ es)
        ≡ run json_parse decode (opened (o ++ all_out decode ks) (e ++ all_err decode ks)) es
  unfolding run step
  run-events_of [] es o e = rw (append-nil o, append-nil e)
  run-events_of (out t ∷ ks) es o e =
      rw (← append_assoc o (decode t) (all_out decode ks)) (run-events_of ks es (o ++ decode t) e)
  run-events_of (err t ∷ ks) es o e =
      rw (← append_assoc e (decode t) (all_err decode ks)) (run-events_of ks es o (e ++ decode t))

  run-close :
      (code : ℕ) (o e : Text)
      → (r : Result Text) × ((run json_parse decode (opened o e) (close code ∷ [])).outcomes
          ≡ r ∷ [])
        × Exit json_parse code o e r
  unfolding run step on_close settle_once
  run-close zero o e = (ok (trim o), refl, succeeds refl)
  run-close (suc n) o e = (
    fail (exit_failure json_parse (suc n) e (parse_remote_error json_parse e)),
    let nonzero : (suc n == 0) ≡ false = ground arith in rw nonzero refl,
    failure-Exit json_parse e (suc n) o _ refl (omega arith),
  )

  -- The command opens its channel, writes to both outputs in any order, and exits: with code 0 the
  -- promise resolves with the trimmed standard output. With another code it is rejected: with the
  -- redacted message and the code of the object that the standard error denotes, if it does, or
  -- else as SSH_NON_ZERO with the redacted standard error, or with the exit code where that says
  -- nothing.
  pub run-command :
      (ks : List Chunk) (code : ℕ)
      → (r : Result Text) × ((run json_parse decode
            (start false)
            (exec_opened ∷ events_of ks ++ close code ∷ [])).outcomes
          ≡ r ∷ [])
        × Exit json_parse code (all_out decode ks) (all_err decode ks) r
  unfolding run step start
  run-command ks code =
      let (r, closed, exit) = run-close code (all_out decode ks) (all_err decode ks) in
      (r, ap (λ c. c.outcomes) (run-events_of ks (close code ∷ []) [] []) ∙ closed, exit)
