-- ===== src/Host.antt =====
-- The functions of Python's standard library that the program calls and whose results it only
-- compares, stores or hands on. They are arguments of the definitions that call them.
use agent_trust_runtime.Base.{ℕ, String, Bool, Option, List}
use agent_trust_runtime.Value.{Fields}

pub record Host : Type 0 where
  -- `json.dumps(value, ensure_ascii=..., sort_keys=True, separators=(",", ":"))`; `none` is a
  -- `TypeError` or a `ValueError`.
  pub dumps : Bool → Fields → Option String
  -- `"sha256:" + sha256(text.encode("utf-8")).hexdigest()`.
  pub sha256 : String → String
  -- `datetime.fromisoformat(text.replace("Z", "+00:00"))`: `none` is a `ValueError`, the number is
  -- the instant in microseconds, and the flag says that there is a timezone.
  pub fromisoformat : String → Option (ℕ × Bool)
  -- `(datetime.fromisoformat(text.replace("Z", "+00:00")) + timedelta(seconds=n)).isoformat()` with
  -- `+00:00` written `Z`; `none` is an `OverflowError`.
  pub add_seconds : String → ℕ → Option String
  -- `str.lower`.
  pub lower : String → String
  -- `fnmatch.fnmatch(name, pattern)`.
  pub fnmatch : String → String → Bool
  -- `shlex.join`.
  pub shlex_join : List String → String
  -- `_SENSITIVE_KEY_PATTERN.search(key)` of domain/approvals.py.
  pub sensitive_key : String → Bool
  -- `_SENSITIVE_TEXT_PATTERN.sub` and then `_BEARER_TOKEN_PATTERN.sub` of domain/approvals.py.
  pub redact_text : String → String
  -- Whether the float with that `repr` equals the number.
  pub float_equals : String → ℕ → Bool
