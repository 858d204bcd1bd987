-- ===== src/Status/Viewers.antt =====
-- The viewer counts over any sequence of joins and leaves.
use sms_app.Base.{
  ℕ, ◌+◌, ◌-◌, ◌≤◌, String, List, [], ◌∷◌, ◌≡◌, refl, arith, if◌then◌else◌, ◌==◌, eq_iff, string_eq,
  lookup-insert, lookup,
}
use sms_app.Status.{ViewerCounts, get_viewer_count, increment_viewers, decrement_viewers}

-- A viewer of a camera joins (`on_play`) or leaves (`on_stop`).
pub data Visit : Type 0 where
  join leave : String → Visit

abbrev pub visit : Visit → ViewerCounts → ViewerCounts
visit (join id) counts = (increment_viewers id counts).1
visit (leave id) counts = (decrement_viewers id counts).1

abbrev pub visits : List Visit → ViewerCounts → ViewerCounts
visits [] counts = counts
visits (v ∷ vs) counts = visits vs (visit v counts)

abbrev joins : String → Visit → ℕ
joins id (join j) = if id == j then 1 else 0
joins id (leave j) = 0

abbrev leaves : String → Visit → ℕ
leaves id (join j) = 0
leaves id (leave j) = if id == j then 1 else 0

abbrev pub joined : String → List Visit → ℕ
joined id [] = 0
joined id (v ∷ vs) = joins id v + joined id vs

abbrev pub left : String → List Visit → ℕ
left id [] = 0
left id (v ∷ vs) = leaves id v + left id vs

-- No more viewers of the camera leave than are there, at any point of the sequence.
abbrev pub IsBalanced : String → ℕ → List Visit → Type 0
IsBalanced id n [] = Unit
IsBalanced id n (v ∷ vs) = (leaves id v ≤ n) × IsBalanced id (n + joins id v - leaves id v) vs

count-visit :
    (id : String) (v : Visit) (counts : ViewerCounts)
    → get_viewer_count id (visit v counts) ≡ get_viewer_count id counts + joins id v - leaves id v
unfolding increment_viewers decrement_viewers
count-visit id (join j) counts =
    ground (arith, eq_iff id j, lookup-insert id j (get_viewer_count j counts + 1) counts)
count-visit id (leave j) counts =
    ground (arith, eq_iff id j, lookup-insert id j (get_viewer_count j counts - 1) counts)

count-visits :
    (id : String) (vs : List Visit) (counts : ViewerCounts)
    → IsBalanced id (get_viewer_count id counts) vs
    → get_viewer_count id (visits vs counts) + left id vs
      ≡ get_viewer_count id counts + joined id vs
count-visits id [] counts h = refl
count-visits id (v ∷ vs) counts (p, h) = omega (
  arith,
  count-visit id v counts,
  count-visits id vs (visit v counts) (rw (count-visit id v counts) h),
)

-- As long as no viewer leaves who had not joined, the count of a camera is the number of joins less
-- the number of leaves of that camera, whatever happens at other cameras in between.
pub viewer_count_balanced :
    (id : String) (vs : List Visit)
    → IsBalanced id 0 vs
    → get_viewer_count id (visits vs []) + left id vs ≡ joined id vs
unfolding get_viewer_count lookup
viewer_count_balanced id vs h = omega (arith, count-visits id vs [] h)
