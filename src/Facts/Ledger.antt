-- ===== src/Facts/Ledger.antt =====
-- adapters/verification/mapper.py: facts that are written to the ledger and read again.
use agent_trust_runtime.Base.{
  String, ◌≡◌, ◌⊎◌, refl, Bool, true, false, ◌&&◌, not, inl, inr, eq_iff, Option, none, some,
  is_blank, or_else, arith, ok, List, [], ◌∷◌, ap, sym, ◌∙◌,
}
use package.text.Mathlib.TextLemmas.{append-nil, append_assoc}
use Prim.Native.String.append
use Prim.Native.String.{◌++◌}
use agent_trust_runtime.Base.Lines.{splitlines}
use agent_trust_runtime.Facts.Breaks.{is_line, splitlines-line}
use agent_trust_runtime.Facts.Files.{
  Json, write_lines, write_facts, read_line, read_lines, read_facts,
}
use agent_trust_runtime.Value.{Value, null, object, opt_text, text, Fields, get, get_or_none}
use agent_trust_runtime.Facts.{
  Fact, check_fact, fact_to_dict, required_fact_text, optional_fact_text, read_fact,
}

abbrev pub is_told : Option String → Bool
is_told none = true
is_told (some s) = not (is_blank s)

-- The texts that the ledger requires are not blank.
unfoldable pub is_printable : Fact → Bool
is_printable f =
    not (is_blank f.key)
    && not (is_blank f.value)
    && not (is_blank f.source_tool_call_id)
    && not (is_blank f.source_tool_name)
    && is_told f.unit

pub required_fact_text-text :
    (raw : Fields) (key s : String)
    → get_or_none key raw ≡ text s
    → is_blank s ≡ false
    → required_fact_text raw key ≡ ok s
unfolding required_fact_text
required_fact_text-text raw key s h b = rw (required_fact_text, h, b)

pub optional_fact_text-opt_text :
    (raw : Fields) (key : String) (o : Option String)
    → get_or_none key raw ≡ opt_text o
    → is_told o ≡ true
    → optional_fact_text raw key ≡ ok o
unfolding optional_fact_text
optional_fact_text-opt_text raw key none h b = rw (optional_fact_text, h)
optional_fact_text-opt_text raw key (some s) h b = rw (optional_fact_text, h) (ground arith)

-- The two kinds of facts.
pub check_fact-cases :
    (f : Fact)
    → check_fact f ≡ ok f
    → ((f.provenance ≡ "real") × (f.trust_level ≡ "trusted"))
      ⊎ ((f.provenance ≡ "simulated") × (f.trust_level ≡ "test_only"))
unfolding check_fact
check_fact-cases f c = ground (
  arith,
  eq_iff f.provenance "real",
  eq_iff f.provenance "simulated",
  eq_iff f.trust_level "trusted",
  eq_iff f.trust_level "test_only",
)

abbrev Told : String → String → Type 0
Told p d = (is_told (some p) ≡ true) × (or_else (some p) d ≡ p)

is_blank_kinds :
    Told "real" "real"
    × Told "simulated" "real"
    × Told "trusted" "trusted"
    × Told "test_only" "trusted"
unfolding is_blank
is_blank_kinds = ((refl, refl), (refl, refl), (refl, refl), (refl, refl))

-- What an accepted fact has for its provenance and its trust level.
check_fact-Told :
    (f : Fact) → check_fact f ≡ ok f → Told f.provenance "real" × Told f.trust_level "trusted"
check_fact-Told f c =
    let (real, simulated, trusted, test_only) = is_blank_kinds in
    elim (check_fact-cases f c) [
      | inl (p, t) ↦ rw (p, t) (real, trusted)
      | inr (p, t) ↦ rw (p, t) (simulated, test_only)
    ]

abbrev or_null : Option Value → Value
or_null none = null
or_null (some v) = v

-- A dict with the entries of a fact is read as that fact.
read_fact-fact_to_dict :
    (f : Fact) (raw : Fields)
    → check_fact f ≡ ok f
    → is_printable f ≡ true
    → ((key : String) → get key raw ≡ get key (fact_to_dict f))
    → read_fact raw ≡ ok f
unfolding is_printable fact_to_dict get_or_none get read_fact
read_fact-fact_to_dict f raw c p same =
    let at = λ (key : String). ap or_null (same key) in
    let ((told_p, same_p), (told_t, same_t)) = check_fact-Told f c in
    rw (
      read_fact,
      required_fact_text-text raw "key" f.key (at "key") (ground arith),
      required_fact_text-text raw "value" f.value (at "value") (ground arith),
      optional_fact_text-opt_text raw "unit" f.unit (at "unit") (ground arith),
      required_fact_text-text raw "source_tool_call_id" f.source_tool_call_id
          (at "source_tool_call_id") (ground arith),
      required_fact_text-text raw "source_tool_name" f.source_tool_name (at "source_tool_name")
          (ground arith),
      optional_fact_text-opt_text raw "provenance" (some f.provenance) (at "provenance") told_p,
      optional_fact_text-opt_text raw "trust_level" (some f.trust_level) (at "trust_level") told_t,
      same_p,
      same_t,
      c,
    )

-- What json does of a dict of strings: the text is no blank, it is one line, and it is read as a dict
-- with the same entries. `dumps` escapes every line break but U+0085, U+2028 and U+2029.
abbrev pub ReadsBack : Json → Fields → Type 0
ReadsBack json d =
    (is_line (json.dumps d) ≡ true)
    × (is_blank (json.dumps d) ≡ false)
    × (raw : Fields) × (json.loads (json.dumps d) ≡ some (object raw))
    × ((key : String) → get key raw ≡ get key d)

-- The constructor accepts the fact, none of its texts is blank, and its entry is read back.
abbrev pub IsKept : Json → Fact → Type 0
IsKept json f = (check_fact f ≡ ok f) × (is_printable f ≡ true) × ReadsBack json (fact_to_dict f)

abbrev pub AllKept : Json → List Fact → Type 0
AllKept json [] = Unit
AllKept json (f ∷ fs) = IsKept json f × AllKept json fs

-- `old + new`.
abbrev pub joined : List Fact → List Fact → List Fact
joined [] gs = gs
joined (f ∷ fs) gs = f ∷ joined fs gs

module _ (json : Json) where
  -- The lines of facts, and what stands behind them.
  abbrev text_of : List Fact → String
  text_of [] = ""
  text_of (f ∷ fs) = json.dumps (fact_to_dict f) ++ ("\n" ++ text_of fs)

  write_lines-text_of :
      (content : String) (fs : List Fact) → write_lines json content fs ≡ content ++ text_of fs
  unfolding write_lines
  write_lines-text_of content [] = sym (append-nil content)
  write_lines-text_of content (f ∷ fs) =
      write_lines-text_of (content ++ (json.dumps (fact_to_dict f) ++ "\n")) fs
      ∙ append_assoc content (json.dumps (fact_to_dict f) ++ "\n") (text_of fs)
      ∙ ap (λ t. content ++ t) (append_assoc (json.dumps (fact_to_dict f)) "\n" (text_of fs))

  read_line-kept : (f : Fact) → IsKept json f → read_line json (json.dumps (fact_to_dict f)) ≡ ok f
  unfolding read_line
  read_line-kept f (c, p, (_, _, raw, l, same)) =
      rw (l, read_line) (read_fact-fact_to_dict f raw c p same)

  read_lines-text_of :
      (fs : List Fact) → AllKept json fs → read_lines json (splitlines (text_of fs)) ≡ ok fs
  unfolding read_lines splitlines
  read_lines-text_of [] h = refl
  read_lines-text_of (f ∷ fs) (k, ks) =
      let (c, p, (one, told, _, _, _)) = k in
      rw
        (
          splitlines-line (json.dumps (fact_to_dict f)) (text_of fs) one,
          told,
          read_line-kept f k,
          read_lines-text_of fs ks,
        )
        refl

  AllKept-joined :
      (fs gs : List Fact) → AllKept json fs → AllKept json gs → AllKept json (joined fs gs)
  AllKept-joined [] gs h k = k
  AllKept-joined (f ∷ fs) gs h k = (h.0, AllKept-joined fs gs h.1 k)

  text_of-joined : (fs gs : List Fact) → text_of fs ++ text_of gs ≡ text_of (joined fs gs)
  text_of-joined [] gs = append.nil (text_of gs)
  text_of-joined (f ∷ fs) gs =
      append_assoc (json.dumps (fact_to_dict f)) ("\n" ++ text_of fs) (text_of gs)
      ∙ ap (λ t. json.dumps (fact_to_dict f) ++ t)
          (append_assoc "\n" (text_of fs) (text_of gs) ∙ ap (λ t. "\n" ++ t) (text_of-joined fs gs))

  -- Facts that are written to a new ledger, and others that are added to it later, are read back in
  -- their order, where the constructor accepts each fact, none of its texts is blank, and its entry is
  -- one line for `splitlines` that json reads back.
  pub read_facts-write_facts :
      (old new : List Fact)
      → AllKept json old
      → AllKept json new
      → read_facts json (some (write_facts json new (some (write_facts json old none))))
        ≡ ok (joined old new)
  unfolding read_facts write_facts
  read_facts-write_facts old new h k =
      ap (λ t. read_lines json (splitlines t))
        (write_lines-text_of (write_lines json "" old) new
          ∙ ap (λ t. t ++ text_of new) (write_lines-text_of "" old ∙ append.nil (text_of old))
          ∙ text_of-joined old new)
      ∙ read_lines-text_of (joined old new) (AllKept-joined old new h k)
