-- ===== src/Sandbox/Allowed.antt =====
-- adapters/sandbox/filesystem.py: what an allowed path is.
use text.Mathlib.Text.{starts_with}
use agent_trust_runtime.Base.{
  String, ◌≡◌, ◌⊎◌, inl, inr, refl, sym, ap, ◌∙◌, Bool, true, false, Bool-cases, ◌==◌, any, eq_iff,
  one_of, some, arith, if◌then◌else◌, List, [], ◌∷◌, or_else, ok, >>=-ok,
}
use agent_trust_runtime.Value.{get_or_none}
use agent_trust_runtime.Protocol.{as_text}
use agent_trust_runtime.Models.{ToolIntent, SandboxDecision}
use agent_trust_runtime.Sandbox.{
  Paths, deny_path, is_inside_project, is_secret_path, is_system_path, resolve_new, final_target,
  judge_path, check_path, check_sandbox,
}

module _ {ℓ} {P : Type ℓ} (paths : Paths P) (blocked : List String) (root : P)
    (intent : ToolIntent) where
  -- What the argument stands for: itself where it is absolute, else a path below the root.
  abbrev pub named : P → P
  named given = if paths.is_absolute given then given else paths.join root given

  -- The path that the file system resolves the argument to; of a file that is to be written, the
  -- folder is resolved and then the name in it.
  abbrev pub Resolves : (value : String) → P → Type ℓ
  Resolves value path =
      (given : P) × (paths.expanduser value ≡ ok given)
      × (((intent.tool_name ≡ "read_file") × (paths.resolve (named given) ≡ ok path))
          ⊎ ((intent.tool_name ≡ "write_file")
              × (folder : P) × (paths.resolve (paths.parent (named given)) ≡ ok folder)
              × (paths.resolve (paths.child folder (paths.name (named given))) ≡ ok path)))

  -- The path lies below the root, starts with no system prefix, is no `.env` and no `.pem`, and has
  -- no part `.ssh`.
  abbrev pub IsSafe : P → Type 0
  IsSafe path =
      (paths.is_relative_to path root ≡ true)
      × (any (λ prefix. starts_with (paths.lower (paths.shown path)) prefix) blocked ≡ false)
      × ((paths.lower (paths.name path) == ".env") ≡ false)
      × ((paths.lower (paths.suffix path) == ".pem") ≡ false)
      × (any (λ part. paths.lower part == ".ssh") (paths.parts path) ≡ false)

  -- The path of the decision is the one that the argument resolves to, and it is safe.
  abbrev pub IsReached : SandboxDecision → Type ℓ
  IsReached d =
      (path : P) × Resolves (or_else (as_text (get_or_none "path" intent.arguments)) "") path
      × (d.path ≡ some (paths.shown path))
      × IsSafe path

  safe :
      (path : P)
      → is_inside_project paths blocked root path ≡ true
      → is_system_path paths blocked root path ≡ false
      → is_secret_path paths blocked root path ≡ false
      → IsSafe path
  unfolding is_inside_project is_system_path is_secret_path
  safe path inside system secret = (inside, system, ground arith, ground arith, ground arith)

  final_target-Resolves :
      (value : String) (path : P)
      → one_of intent.tool_name ("read_file" ∷ "write_file" ∷ []) ≡ true
      → final_target paths blocked root intent.tool_name value ≡ ok path
      → Resolves value path
  unfolding final_target resolve_new
  final_target-Resolves value path known h =
      let (given, expanded, chosen) = >>=-ok (paths.expanduser value) _ h in
      (
        given,
        expanded,
        elim (Bool-cases (intent.tool_name == "write_file")) [
          | inl e ↦
              let (folder, p, q) =
                >>=-ok (paths.resolve (paths.parent (named given)))
                  (λ folder. paths.resolve (paths.child folder (paths.name (named given))))
                  (rw (e, resolve_new) at chosen) in
              inr ((eq_iff intent.tool_name "write_file").0 e, folder, p, q)
          | inr e ↦ inl ((eq_iff intent.tool_name "read_file").0 (ground arith), rw e at chosen)
        ],
      )

  judge_path-allow :
      (path : P)
      → (judge_path paths blocked root intent path).effect ≡ "allow"
      → ((judge_path paths blocked root intent path).path ≡ some (paths.shown path))
        × (is_inside_project paths blocked root path ≡ true)
        × (is_system_path paths blocked root path ≡ false)
        × (is_secret_path paths blocked root path ≡ false)
  unfolding judge_path deny_path
  judge_path-allow path h =
      go (is_system_path paths blocked root path) (is_inside_project paths blocked root path)
        (is_secret_path paths blocked root path) refl refl refl
    where
      go :
          (system inside secret : Bool)
          → is_system_path paths blocked root path ≡ system
          → is_inside_project paths blocked root path ≡ inside
          → is_secret_path paths blocked root path ≡ secret
          → ((judge_path paths blocked root intent path).path ≡ some (paths.shown path))
            × (is_inside_project paths blocked root path ≡ true)
            × (is_system_path paths blocked root path ≡ false)
            × (is_secret_path paths blocked root path ≡ false)
      go true inside secret a b c = absurd (cc (rw (judge_path, a) at h))
      go false false secret a b c = absurd (cc (rw (judge_path, a, b) at h))
      go false true true a b c = absurd (cc (rw (judge_path, a, b, c) at h))
      go false true false a b c = (rw (judge_path, a, b, c), b, a, c)

  decision-eq : (a b : SandboxDecision) → ok a ≡ ok b → a ≡ b
  decision-eq a b h = cc

  check_path-allow :
      (value : String) (d : SandboxDecision)
      → one_of intent.tool_name ("read_file" ∷ "write_file" ∷ []) ≡ true
      → check_path paths blocked root intent value ≡ ok d
      → d.effect ≡ "allow"
      → (path : P) × Resolves value path × (d.path ≡ some (paths.shown path)) × IsSafe path
  unfolding check_path deny_path
  check_path-allow value d known h a = elim (Bool-cases (value == "")) [
    | inl e ↦
        absurd (
          cc
            (ap (λ (x : SandboxDecision). x.effect) (decision-eq _ d (rw (check_path, e) at h)), a))
    | inr e ↦
        let (path, p, q) =
          >>=-ok (final_target paths blocked root intent.tool_name value)
            (λ path. ok (judge_path paths blocked root intent path)) (rw (check_path, e) at h) in
        let same = decision-eq (judge_path paths blocked root intent path) d q in
        let (shown, inside, system, secret) =
          judge_path-allow path (ap (λ (x : SandboxDecision). x.effect) same ∙ a) in
        (
          path,
          final_target-Resolves value path known p,
          ap (λ (x : SandboxDecision). x.path) (sym same) ∙ shown,
          safe path inside system secret,
        )
  ]

  -- Where the sandbox allows a call, the tool is neither read_file nor write_file, or the path in
  -- the decision is the one that the file system resolves the path argument to, for a write its
  -- folder first and then the name in it, and that resolved path lies below the root, starts with no
  -- system prefix, is no `.env` and no `.pem` file, and has no part `.ssh`.
  pub check_sandbox-allow :
      (d : SandboxDecision)
      → check_sandbox paths blocked root intent ≡ ok d
      → d.effect ≡ "allow"
      → (one_of intent.tool_name ("read_file" ∷ "write_file" ∷ []) ≡ false) ⊎ IsReached d
  unfolding check_sandbox
  check_sandbox-allow d h a =
      elim (Bool-cases (one_of intent.tool_name ("read_file" ∷ "write_file" ∷ []))) [
        | inl e ↦ inr (
            check_path-allow (or_else (as_text (get_or_none "path" intent.arguments)) "") d e
              (rw (check_sandbox, e) at h) a)
        | inr e ↦ inl e
      ]
