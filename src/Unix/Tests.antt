-- ===== src/Unix/Tests.antt =====
-- Runs of the Unix programs, and their theorems at concrete inputs.
use security_audits.Base.{
  ◌≡◌, ◌==◌, refl, arith, Bool, true, false, Option, none, some, if◌then◌else◌, done, ℕ, zero, suc,
  List, [], ◌∷◌, ◌++◌, ◌%◌, ◌≢◌, ap, checked, Result,
}
use security_audits.Unix.Vectored
use security_audits.Unix.Vectored.{Sockets, linux}
use security_audits.Base.Int.{pos, negsuc}
use security_audits.Unix.AltStack
use security_audits.Unix.AltStack.{
  Memory, StackError, main, map_stack, buggy_get_stack, patched_get_stack,
}
use security_audits.Unix.AltStack.Mappings.{
  handed_out, left_mapped, mapped_by, Documented, get_stack-mapped,
}
use security_audits.Unix.AltStack.Leaked.{Paged, main-leaks}

-- A system of pages that maps at one address, its state the list of its mappings.
abbrev pages : Memory (List (ℕ × ℕ))
pages = record {
  mmap = λ addr len prot flags fd off s. (16384, (16384, len) ∷ s);
  munmap = λ addr len s. (pos 0, elim s [ [] ↦ [] | m ∷ ms ↦ ms ]);
  mprotect = λ addr len prot s. (elim (addr % 16384) [ zero ↦ pos 0 | suc r ↦ negsuc 0 ], s);
}

pages-Documented : Documented (List (ℕ × ℕ)) pages (λ s. s)
pages-Documented = record {
  mmap_maps = λ addr len prot flags fd off s. refl;
  mprotect_keeps = λ addr len prot s. refl;
  munmap_unmaps = λ addr len rest s e. ap (λ s'. elim s' [ [] ↦ [] | m ∷ ms ↦ ms ]) e;
}

refused_within : (r : ℕ) → r ≢ 0 → elim r [ zero ↦ pos 0 | suc k ↦ negsuc 0 ] ≢ pos 0
refused_within zero n = absurd (n refl)
refused_within (suc r) n = λ e. absurd cc

pages-Paged : Paged (List (ℕ × ℕ)) pages 16384
pages-Paged = record {
  mmap_aligned = λ addr len prot flags fd off s n. refl;
  mprotect_refuses = λ addr len prot s n. refused_within (addr % 16384) n;
}

main_leaves_one : main AltStack.linux pages checked [] ≡ done ((16384, 81920) ∷ [])
unfolding main map_stack
main_leaves_one = refl

get_stack-mapped_example :
    ((r : Result ℕ StackError) × (u : List (ℕ × ℕ)) × (patched_get_stack AltStack.linux pages
          checked 65536 16384 []
        ≡ done (r, u))
      × (u ≡ handed_out 81920 r ++ []))
    × ((r : Result ℕ StackError) × (u : List (ℕ × ℕ)) × (buggy_get_stack AltStack.linux pages
            checked 65536 16384 []
          ≡ done (r, u))
        × (u ≡ left_mapped 81920 r ++ []))
get_stack-mapped_example =
    get_stack-mapped AltStack.linux pages (λ s. s) pages-Documented checked 65536 16384 []
      (omega arith)

main-leaks_example :
    (u : List (ℕ × ℕ)) × (main AltStack.linux pages checked [] ≡ done u)
    × (u ≡ mapped_by 81920 (map_stack AltStack.linux pages 81920 []).0 ++ [])
main-leaks_example =
    main-leaks AltStack.linux pages (λ s. s) pages-Documented 16384 (omega arith) pages-Paged
      checked []

-- Pairs are 3 and 4; a write to a broken end fails with EPIPE once the signal is ignored.
record Ends : Type 0 where
  ignored : Bool
  broken : Bool
  error : ℕ

abbrev written : Bool → Bool → Ends → Option ℕ × Ends
written true true s = (none, record s { error = 32 })
written false true s = (some 16, s)
written true false s = (some 16, s)
written false false s = (some 16, s)

abbrev ends : Sockets Ends
ends = record {
  ignore_sigpipe = λ s. record s { ignored = true };
  socketpair = λ s. (some (3, 4), record s { broken = false });
  close = λ fd s. if fd == 4 then record s { broken = true } else s;
  send = λ fd bs n s. written s.ignored s.broken s;
  writev = λ fd bss s. written s.ignored s.broken s;
  errno = λ s. s.error;
}

abbrev Ignoring : Ends → Type 0
Ignoring s = s.ignored ≡ true

abbrev Broken : ℕ → Ends → Type 0
Broken fd s = s.broken ≡ true

abbrev connected : Ends
connected = record { ignored = false; broken = false; error = 0 }
