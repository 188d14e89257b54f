-- ===== src/Editor/Tests.antt =====
-- Runs of the positions and the windows, and the theorems there.
use any.Common.{
  ℕ, true, List, [], ◌∷◌, ◌++◌, Bytes, codes, none, some, if◌then◌else◌, String, ◌≡◌, refl, arith,
}
use any.Strings.{bytes_lt, eq_bytes}
use any.Editor.Lexids.{Lexid, allocate_run, run_between}
use any.Editor.Lexids.Runs.{IsLexid, IsRun, allocate_run-IsRun}
use any.Editor.Windows.{Block, windows, windows_from, is_blank}
use any.Editor.Windows.Groups.{AreWindows, windows-AreWindows}

-- an allocator that makes positions longer, as a stand-in
abbrev longer : Lexid
longer = record {
  middle = 9 ∷ [];
  next = λ prev. prev ++ 1 ∷ [];
  next_before = λ prev next. if bytes_lt (prev ++ 0 ∷ []) next then some (prev ++ 0 ∷ []) else none;
}

longer_after : (c : ℕ) (s : Bytes) → bytes_lt s (s ++ c ∷ []) ≡ true
unfolding bytes_lt
longer_after c [] = refl
longer_after c (d ∷ s) = ground (arith, longer_after c s)

longer-IsLexid : IsLexid longer
longer-IsLexid = record {
  middle_filled = refl;
  next_after = longer_after 1;
  between = λ prev next id h e. ground (arith, longer_after 0 prev, e);
}

three_between :
    allocate_run longer (codes "a") (codes "b") 2
    ≡ some ((codes "a" ++ 0 ∷ []) ∷ (codes "a" ++ 0 ∷ 0 ∷ []) ∷ [])
unfolding allocate_run run_between bytes_lt
three_between = refl

allocate_run-IsRun_example :
    IsRun (codes "a") (codes "b") 2 (allocate_run longer (codes "a") (codes "b") 2)
allocate_run-IsRun_example = allocate_run-IsRun longer longer-IsLexid (codes "a") (codes "b") 2

abbrev block : String → String → String → Block
block id type text = record { id = codes id; type = codes type; text = codes text }

abbrev ordered : List Block
ordered =
    block "h1" "heading" "Setup"
    ∷ block "b1" "text" "First"
    ∷ block "b2" "divider" ""
    ∷ block "h2" "heading" "Deployment"
    ∷ []

windows_run :
    windows ordered
    ≡ record {
      anchor_id = codes "h1";
      block_ids = codes "h1" ∷ codes "b1" ∷ codes "b2" ∷ [];
      text = codes "Setup" ++ 10 ∷ codes "First";
      title = codes "Setup";
    }
      ∷ record {
        anchor_id = codes "h2";
        block_ids = codes "h2" ∷ [];
        text = codes "Deployment";
        title = codes "Deployment";
      }
      ∷ []
unfolding windows windows_from is_blank eq_bytes
windows_run = refl

windows-AreWindows_example : AreWindows ordered (windows ordered)
windows-AreWindows_example = windows-AreWindows ordered
