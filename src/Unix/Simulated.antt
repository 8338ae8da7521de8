-- ===== src/Unix/Simulated.antt =====
-- A simulated process for 025, 026 and 122: its table is the log of what was opened and closed.
use security_audits.Base.{
  ℕ, suc, ◌≤◌, ◌<◌, ◌≡◌, ◌≢◌, ◌∙◌, refl, sym, ap, max, arith, Bool, true, false, List, [], ◌∷◌,
  Option, none, some, ltb, if◌then◌else◌, Bool-cases, inl, inr,
}
use security_audits.Unix.Descriptors.{Calls, Table, update, Documented}
use security_audits.Unix.OpenLeak.Count.{StdOpen}

-- The last entry stands first. `contents` are the unread bytes of each file.
pub record Log : Type 0 where
  pub entries : List (ℕ × Option ℕ)
  pub contents : ℕ → List ℕ

abbrev pub table_of : List (ℕ × Option ℕ) → Table
table_of [] m = none
table_of ((n, f) ∷ es) m = update (table_of es) n f m

abbrev pub table : Log → Table
table k = table_of k.entries

abbrev pub entered : ℕ → Option ℕ → Log → Log
entered n f k = record { entries = (n, f) ∷ k.entries; contents = k.contents }

-- A descriptor above all that were ever open.
unfoldable pub fresh : List (ℕ × Option ℕ) → ℕ
fresh [] = 3
fresh ((n, f) ∷ es) = max (suc n) (fresh es)

pub fresh_closed : (es : List (ℕ × Option ℕ)) (m : ℕ) → fresh es ≤ m → table_of es m ≡ none
unfolding fresh
fresh_closed [] m le = refl
fresh_closed ((n, f) ∷ es) m le = ground (arith, fresh_closed es m ground arith)

abbrev pub duped : Option ℕ → ℕ → Log → Option ℕ × Log
duped none n k = (none, k)
duped (some f) n k = (some n, entered n (some f) k)

pub duped_opens :
    (o : Option ℕ) (n m : ℕ) (k k' : Log)
    → duped o n k ≡ (some m, k')
    → (o ≢ none) × (n ≡ m) × (table k' ≡ update (table k) m o)
duped_opens none n m k k' e = absurd ground arith
duped_opens (some f) n m k k' e =
    let same : n ≡ m = ground arith in
    (
      (λ (p : some f ≡ none). cc),
      same,
      ap (λ (r : Option ℕ × Log). table r.1) (sym e)
          ∙ ap (λ (i : ℕ). update (table k) i (some f)) same,
    )

pub duped_fails :
    (o : Option ℕ) (n : ℕ) (k k' : Log) → duped o n k ≡ (none, k') → table k' ≡ table k
duped_fails none n k k' e = ap (λ (r : Option ℕ × Log). table r.1) (sym e)
duped_fails (some f) n k k' e = absurd ground arith

-- `open` has room below 256.
abbrev pub opened_at : Bool → ℕ → Log → Option ℕ × Log
opened_at room n k = duped (if room then some 9 else none) n k

pub opened_limit : (n m : ℕ) (k k' : Log) → opened_at (ltb n 256) n k ≡ (some m, k') → m < 256
opened_limit n m k k' e = elim (Bool-cases (ltb n 256)) [
  | inl lt ↦ ground (arith, (duped_opens (if ltb n 256 then some 9 else none) n m k k' e).1)
  | inr ge ↦ absurd ((duped_opens (if ltb n 256 then some 9 else none) n m k k' e).0 (rw ge refl))
]

abbrev pub sys : Calls Log
sys = record {
  dup = λ fd k. duped (table k fd) (fresh k.entries) k;
  dup2 = λ a b k. duped (table k a) b k;
  open_null = λ k. opened_at (ltb (fresh k.entries) 256) (fresh k.entries) k;
  close = λ fd k. entered fd none k;
  fcntl_getfd = λ fd k. table k fd;
}

pub opened_opens :
    (room : Bool) (n m : ℕ) (k k' : Log)
    → table k n ≡ none
    → opened_at room n k ≡ (some m, k')
    → (table k m ≡ none) × ((f : ℕ) × (table k' ≡ update (table k) m (some f)))
opened_opens true n m k k' free e =
    let opens = duped_opens (some 9) n m k k' e in (ap (table k) (sym opens.1) ∙ free, (9, opens.2))
opened_opens false n m k k' free e = absurd ((duped_opens none n m k k' e).0 refl)

pub sys-Documented : Documented Log sys table
sys-Documented = record {
  dup_fails = λ fd s s' e. duped_fails (table s fd) (fresh s.entries) s s' e;
  dup_opens = λ fd n s s' e.
      let opens = duped_opens (table s fd) (fresh s.entries) n s s' e in
      (
        opens.0,
        ap (table s) (sym opens.1) ∙ fresh_closed s.entries (fresh s.entries) (omega arith),
        opens.2,
      );
  dup2_fails = λ a b s s' e. duped_fails (table s a) b s s' e;
  dup2_opens = λ a b n s s' e.
      let opens = duped_opens (table s a) b n s s' e in
      opens.2 ∙ ap (λ (i : ℕ). update (table s) i (table s a)) (sym opens.1);
  open_fails = λ s s' e.
      duped_fails (if ltb (fresh s.entries) 256 then some 9 else none) (fresh s.entries) s s' e;
  open_opens = λ n s s' e.
      opened_opens (ltb (fresh s.entries) 256) (fresh s.entries) n s s'
        (fresh_closed s.entries (fresh s.entries) (omega arith)) e;
  close_closes = λ fd s. refl;
  getfd_open = λ fd s. refl;
}

-- stdin, stdout and stderr are open.
abbrev pub std_process : Log
std_process = record {
  entries = (0, some 0) ∷ (1, some 2) ∷ (2, some 2) ∷ [];
  contents = (λ f. []);
}

pub std_process-StdOpen : StdOpen (table std_process)
std_process-StdOpen =
    ((λ p. absurd ground arith), (λ p. absurd ground arith), (λ p. absurd ground arith))
