-- ===== src/Window/Commits.antt =====
-- src/steamcompmgr.cpp: what the rest of the compositor asks of a window's commit queue.
use cloud_desktop.Prelude.{
  ℕ, ◌+◌, Bool, true, false, Option, none, some, List, [], ◌∷◌, if◌then◌else◌, get_elem?,
}
use cloud_desktop.Window.{Win, Commit}

-- The loop of window_last_done_commit_index from index `i` on; -1 is `none`.
unfoldable pub last_done : ℕ → Option ℕ → List Commit → Option ℕ
last_done i last [] = last
last_done i last (c ∷ cs) = last_done (i + 1) (if c.done then some i else last) cs

unfoldable pub window_last_done_commit_index : Win → Option ℕ
unfolding last_done
window_last_done_commit_index w = last_done 0 none w.commit_queue

unfoldable pub window_has_commits : Win → Bool
window_has_commits w = elim (window_last_done_commit_index w) [ none ↦ false | some _ ↦ true ]

-- The commit at that index, or no pointer.
unfoldable pub get_window_last_done_commit_peek : Win → Option Commit
get_window_last_done_commit_peek w = elim (window_last_done_commit_index w) [
  | none ↦ none
  | some i ↦ get_elem? w.commit_queue i
]

-- The id of that commit, and 0 where there is none (or no window).
unfoldable pub window_last_done_commit_id : Option Win → ℕ
window_last_done_commit_id none = 0
window_last_done_commit_id (some w) = elim (get_window_last_done_commit_peek w) [
  | none ↦ 0
  | some c ↦ c.commit_id
]
