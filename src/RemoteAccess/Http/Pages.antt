-- ===== src/RemoteAccess/Http/Pages.antt =====
-- http_handlers.go: the page of sessions that `handleGetSessions` answers with.
use onli_desk_full.Common.{
  ◌≡◌, refl, sym, ◌+◌, ltb, take_all, drop_all, ap, ◌∙◌, ℕ, ◌-◌, ◌≤◌, ◌<◌, ℤ, pos, negsuc, pos_part,
  ◌≤ℤ◌, ◌<ℤ◌, String, true, Option, some, List, arith, if◌then◌else◌, length, length-drop, take,
  drop, Bool-cases, inl, inr,
}
use onli_desk_full.Common.Int.{◌+ℤ◌}
use onli_desk_full.RemoteAccess.Session.{Session}
use onli_desk_full.RemoteAccess.Manager.{Manager, get_all_sessions}
use onli_desk_full.RemoteAccess.Http.Replies.{reply, sessions_page}
use onli_desk_full.RemoteAccess.Http.{
  slice, min_ℤ, filtered_sessions, limit_of, offset_of, handle_get_sessions,
}
use onli_desk_full.RemoteAccess.Http.Selection.{
  Selected, IsGiven, InLimits, filtered_sessions-Selected, limit_of-IsGiven, offset_of-IsGiven,
}

ltb_lt : (a b : ℕ) → ltb a b ≡ true → a < b
ltb_lt a b h = ground arith

min_ℕ : ℕ → ℕ → ℕ
min_ℕ a b = if ltb b a then b else a

min_pos : (a b : ℕ) → min_ℤ (pos a) (pos b) ≡ pos (min_ℕ a b)
unfolding min_ℕ
min_pos a b = ground arith

slice_inside :
    (a b : ℕ) (found : List Session)
    → a ≤ b
    → b ≤ length found
    → slice (pos a) (pos b) found ≡ some (take (b - a) (drop a found))
unfolding slice
slice_inside a b found h l = ground arith

take_min : (k n : ℕ) (xs : List Session) → length xs ≡ n → take (min_ℕ k n) xs ≡ take k xs
unfolding min_ℕ
take_min k n xs e = elim (Bool-cases (ltb n k)) [
  | inl l ↦
      rw l (take_all n xs (ground arith) ∙ sym (take_all k xs (omega (arith, e, ltb_lt n k l))))
  | inr g ↦ rw g refl
]

drop_min : (k : ℕ) (xs : List Session) → drop (min_ℕ k (length xs)) xs ≡ drop k xs
unfolding min_ℕ
drop_min k xs = elim (Bool-cases (ltb (length xs) k)) [
  | inl l ↦ rw l (
      drop_all (length xs) xs (ground arith)
      ∙ sym (drop_all k xs (omega (arith, ltb_lt (length xs) k l))))
  | inr g ↦ rw g refl
]

-- Go's `found[start:end]`, in the natural numbers.
window_ℕ :
    (l o : ℕ) (found : List Session)
    → let n = length found in
      let start = min_ℕ o n in
      slice (pos start) (pos (min_ℕ (start + l) n)) found ≡ some (take l (drop o found))
window_ℕ l o found =
    let n : ℕ = length found in
    let start : ℕ = min_ℕ o n in
    let e : min_ℕ (start + l) n - start ≡ min_ℕ l (n - start) = unfold min_ℕ in ground arith in
    slice_inside start (min_ℕ (start + l) n) found (unfold min_ℕ in ground arith)
      (unfold min_ℕ in ground arith)
    ∙ ap (λ k. some (take k (drop start found))) e
    ∙ ap some (take_min l (n - start) (drop start found) (length-drop start found))
    ∙ ap (λ xs. some (take l xs)) (drop_min o found)

module _ (atoi : String → Option ℤ) where
  limit_of_bounds :
      (default : ℤ) (text : String)
      → pos 0 <ℤ default
      → default ≤ℤ pos 1_000
      → (pos 0 <ℤ limit_of atoi default text) × (limit_of atoi default text ≤ℤ pos 1_000)
  unfolding limit_of
  limit_of_bounds default text h l = ground arith

  offset_of_bound : (text : String) → pos 0 ≤ℤ offset_of atoi text
  unfolding offset_of
  offset_of_bound text = ground arith

  slice_window :
      (limit offset : ℤ) (found : List Session)
      → pos 0 <ℤ limit
      → pos 0 ≤ℤ offset
      → let total = pos (length found) in
        let start = min_ℤ offset total in
        slice start (min_ℤ (start +ℤ limit) total) found
        ≡ some (take (pos_part limit) (drop (pos_part offset) found))
  slice_window (negsuc l) offset found h g = absurd (omega (arith, h))
  slice_window (pos l) (negsuc o) found h g = absurd (omega (arith, g))
  slice_window (pos l) (pos o) found h g =
      let n : ℕ = length found in
      let start : ℕ = min_ℕ o n in
      let plus : pos start +ℤ pos l ≡ pos (start + l) = unfold ◌+ℤ◌ in ground arith in
      ap (λ s. slice s (min_ℤ (s +ℤ pos l) (pos n)) found) (min_pos o n)
      ∙ ap (λ e. slice (pos start) (min_ℤ e (pos n)) found) plus
      ∙ ap (λ e. slice (pos start) e found) (min_pos (start + l) n)
      ∙ window_ℕ l o found

  -- Every query is answered, whatever the order in which the sessions are visited: with the part of
  -- the sessions visited that are wanted, in their order, from the offset on and of at most the limit;
  -- with their number; and with the limit and the offset. A session is wanted if it has the status and
  -- the technician that are given. The limit is the number given if that is from 1 to 1000, and else
  -- 50; the offset is the number given if that is not negative, and else 0.
  pub handle_get_sessions-page :
      (order : List Session → List Session) (status technician limit_text offset_text : String)
      (m : Manager)
      → (found : List Session) × (limit : ℤ) × (offset : ℤ) × (handle_get_sessions atoi order status
            technician limit_text offset_text m
          ≡ (
            m,
            reply 200 (
                sessions_page
                  (take (pos_part limit) (drop (pos_part offset) found))
                  (length found)
                  limit
                  offset),
          ))
        × Selected status technician found (order (get_all_sessions m))
        × IsGiven atoi (pos 50) InLimits limit_text limit
        × IsGiven atoi (pos 0) (λ o. pos 0 ≤ℤ o) offset_text offset
  unfolding handle_get_sessions
  handle_get_sessions-page order status technician limit_text offset_text m =
      let (low, high) = limit_of_bounds (pos 50) limit_text (omega arith) (omega arith) in
      let found : List Session = filtered_sessions status technician (order (get_all_sessions m)) in
      let e =
        slice_window (limit_of atoi (pos 50) limit_text) (offset_of atoi offset_text) found low
          (offset_of_bound offset_text) in
      (
        found,
        limit_of atoi (pos 50) limit_text,
        offset_of atoi offset_text,
        rw (e, handle_get_sessions) refl,
        filtered_sessions-Selected status technician (order (get_all_sessions m)),
        limit_of-IsGiven atoi (pos 50) limit_text,
        offset_of-IsGiven atoi offset_text,
      )
