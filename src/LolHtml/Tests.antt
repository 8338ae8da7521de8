-- ===== src/LolHtml/Tests.antt =====
-- The reproducers with a rewriter that runs out of memory.
use security_audits.Base.{
  ℕ, suc, ◌+◌, ◌*◌, ◌≡◌, refl, [], ◌∷◌, none, some, ltb, if◌then◌else◌, ◌++◌, Outcome, checked,
}
use security_audits.Base.Int.{pos}
use security_audits.LolHtml.Stream.{Process, Report, write_error, after, stream}
use security_audits.LolHtml.Lines.{until_panic}
use security_audits.LolHtml.Namespaces.{EndsAt, lines_before, main_namespaces, main_namespaces-due}

-- The state is the count of writes; each takes 6 bytes, and the `limit`th fails.
abbrev limited : ℕ → Process ℕ ℕ
limited limit = record {
  write = λ bs w. if ltb w limit then (none, suc w) else (some 12, w);
  getrusage = λ who u w. record u { ru_maxrss = pos (6 + w) };
}

-- The line for chunk 256 is the only one before chunk 300 fails.
two_lines :
    main_namespaces checked (limited 300) none 0
    ≡ after (256 * 1024) 263 (pos 257) ∷ write_error (300 * 1024) 12 ∷ []
unfolding main_namespaces stream
two_lines = refl

main_namespaces-due_example :
    (j : ℕ) × (last : Outcome (Report ℕ)) × (EndsAt checked (limited 300) none 0 j last
      × (main_namespaces checked (limited 300) none 0
          ≡ until_panic (lines_before checked (limited 300) j 0 ++ last ∷ [])))
main_namespaces-due_example = main_namespaces-due checked (limited 300) none 0
