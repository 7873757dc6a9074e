-- ===== src/Facts/Files.antt =====
-- adapters/verification/mapper.py: `write_facts` and `read_facts`, on the text of the ledger's file.
-- The json module is a parameter; errors of the file system are not modelled.
use Prim.Native.String.{◌++◌}
use agent_trust_runtime.Base.{
  String, Option, none, some, List, [], ◌∷◌, is_blank, if◌then◌else◌, Result, ok, raised,
  value_error, ◌>>=◌,
}
use agent_trust_runtime.Base.Lines.{splitlines}
use agent_trust_runtime.Value.{Value, object, Fields}
use agent_trust_runtime.Facts.{Fact, fact_to_dict, read_fact}

pub record Json : Type 0 where
  -- `json.dumps(value, ensure_ascii=False, sort_keys=True)`, of a dict of strings and `None`.
  pub dumps : Fields → String
  -- `json.loads(text)`; `none` is a `JSONDecodeError`, which is a `ValueError`.
  pub loads : String → Option Value

module _ (json : Json) where
  -- The loop of `write_facts`: the text of the file so far.
  unfoldable pub write_lines : String → List Fact → String
  unfolding fact_to_dict
  write_lines content [] = content
  write_lines content (f ∷ fs) = write_lines (content ++ json.dumps (fact_to_dict f) ++ "\n") fs

  -- The file is opened to be added to, and made if it is missing.
  unfoldable pub write_facts : List Fact → Option String → String
  unfolding write_lines
  write_facts facts none = write_lines "" facts
  write_facts facts (some content) = write_lines content facts

  unfoldable pub read_line : String → Result Fact
  unfolding read_fact
  read_line line = elim (json.loads line) [
    | none ↦ raised (value_error "invalid JSON")
    | some (object raw) ↦ read_fact raw
    | some _ ↦ raised (value_error "fact ledger entries must be objects")
  ]

  -- The loop of `read_facts`: a blank line is passed over.
  unfoldable pub read_lines : List String → Result (List Fact)
  unfolding read_line is_blank
  read_lines [] = ok []
  read_lines (line ∷ lines) =
      let rest = read_lines lines in
      if is_blank line then rest else do fact ← read_line line; facts ← rest; ok (fact ∷ facts)

  unfoldable pub read_facts : Option String → Result (List Fact)
  unfolding read_lines splitlines
  read_facts none = ok []
  read_facts (some content) = read_lines (splitlines content)
