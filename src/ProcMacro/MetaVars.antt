-- ===== src/ProcMacro/MetaVars.antt =====
-- rust-stdlib/pocs/065-escaped-dollar-parsed-as-metavariable.rs: the metavariables of a token stream. An
-- identifier is the list of its bytes, a character its code.
use security_audits.Base.{ℕ, zero, suc, List, [], ◌∷◌, ◌++◌, ◌==◌, ◌≡◌, refl, if◌then◌else◌}

mutual
  pub data Tok : Type 0 where
    punct : ℕ → Tok
    ident : List ℕ → Tok
    group : Toks → Tok

  pub data Toks : Type 0 where
    nil : Toks
    cons : Tok → Toks → Toks

-- What `helper` appends to `out`. After a dollar it has looked at the next token, and takes it if it is
-- an identifier.
unfoldable mutual
  pub helper : Toks → List (List ℕ)
  helper nil = []
  helper (cons (punct c) rest) =
      let taken = after_dollar rest in
      let passed = helper rest in if c == b'$' then taken else passed
  helper (cons (ident id) rest) = helper rest
  helper (cons (group inner) rest) = helper inner ++ helper rest

  pub after_dollar : Toks → List (List ℕ)
  after_dollar nil = []
  after_dollar (cons (punct c) rest) =
      let taken = after_dollar rest in
      let passed = helper rest in if c == b'$' then taken else passed
  after_dollar (cons (ident id) rest) = id ∷ helper rest
  after_dollar (cons (group inner) rest) = helper inner ++ helper rest

unfoldable pub collect_meta_vars_buggy : Toks → List (List ℕ)
unfolding helper
collect_meta_vars_buggy stream = helper stream

abbrev pub dollar : Tok
dollar = punct b'$'

-- `$x$$var` in a group.
abbrev pub stream : Toks
stream =
    cons
      (group (
        cons dollar (
          cons (ident (120 ∷ []))
            (cons dollar (cons dollar (cons (ident (118 ∷ 97 ∷ 114 ∷ [])) nil))))))
      nil

abbrev pub dollars : ℕ → Toks → Toks
dollars zero rest = rest
dollars (suc n) rest = cons dollar (dollars n rest)

after_dollars :
    (n : ℕ) (id : List ℕ) (rest : Toks)
    → after_dollar (dollars n (cons (ident id) rest)) ≡ id ∷ helper rest
unfolding helper after_dollar
after_dollars zero id rest = refl
after_dollars (suc n) id rest = after_dollars n id rest

-- An identifier after one or more dollars is taken for a metavariable, however many of them escape each
-- other; what follows it is read as if it stood alone.
pub collect-dollars :
    (n : ℕ) (id : List ℕ) (rest : Toks)
    → collect_meta_vars_buggy (dollars (suc n) (cons (ident id) rest))
      ≡ id ∷ collect_meta_vars_buggy rest
unfolding collect_meta_vars_buggy helper
collect-dollars n id rest = after_dollars n id rest
