-- ===== src/RemoteAccess/Http/Selection.antt =====
-- http_handlers.go: the sessions, the limit and the offset that a query of `handleGetSessions` asks for.
use onli_desk_full.Common.{
  ◌==◌, eq_iff, false, ◌&&◌, ◌||◌, ltb_ℤ, leb_ℤ, ◌⊎◌, none, [], ◌∷◌, Option-cases, ◌≡◌, refl, ℤ,
  pos, ◌≤ℤ◌, String, true, Option, some, List, arith, Bool-cases, inl, inr,
}
use onli_desk_full.RemoteAccess.Session.{Session}
use onli_desk_full.RemoteAccess.Http.{
  status_text, is_selected, filtered_sessions, limit_of, offset_of,
}

-- A session that a query asks for.
abbrev pub IsWanted : String → String → Session → Type 0
IsWanted status technician s =
    ((status ≡ "") ⊎ (status_text s.status ≡ status))
    × ((technician ≡ "") ⊎ (s.technician_id ≡ technician))

-- The sessions that are wanted, out of those that are visited and in their order.
pub data Selected (status technician : String) : List Session → List Session → Type 0 where
  none_left : Selected status technician [] []
  selects :
      {s : Session} {found visited : List Session}
      → IsWanted status technician s
      → Selected status technician found visited
      → Selected status technician (s ∷ found) (s ∷ visited)
  skips :
      {s : Session} {found visited : List Session}
      → ¬ IsWanted status technician s
      → Selected status technician found visited
      → Selected status technician found (s ∷ visited)

either_eq : (a b c d : String) → (a == b || c == d) ≡ true → (a ≡ b) ⊎ (c ≡ d)
either_eq a b c d h = elim (Bool-cases (a == b)) [
  | inl y ↦ inl ((eq_iff a b).0 y)
  | inr n ↦ inr ((eq_iff c d).0 (rw n at h))
]

eq_either : (a b c d : String) → (a ≡ b) ⊎ (c ≡ d) → (a == b || c == d) ≡ true
eq_either a b c d (inl e) = rw ((eq_iff a b).1 e) refl
eq_either a b c d (inr e) = rw ((eq_iff c d).1 e) (ground arith)

is_selected-IsWanted :
    (status technician : String) (s : Session)
    → is_selected status technician s ≡ true
    → IsWanted status technician s
unfolding is_selected
is_selected-IsWanted status technician s h = (
  either_eq status "" (status_text s.status) status (ground arith),
  either_eq technician "" s.technician_id technician (ground arith),
)

IsWanted-is_selected :
    (status technician : String) (s : Session)
    → is_selected status technician s ≡ false
    → ¬ IsWanted status technician s
unfolding is_selected
IsWanted-is_selected status technician s h w = ground (
  arith,
  eq_either status "" (status_text s.status) status w.0,
  eq_either technician "" s.technician_id technician w.1,
)

pub filtered_sessions-Selected :
    (status technician : String) (ss : List Session)
    → Selected status technician (filtered_sessions status technician ss) ss
unfolding filtered_sessions
filtered_sessions-Selected status technician [] = none_left
filtered_sessions-Selected status technician (s ∷ ss) =
    elim (Bool-cases (is_selected status technician s)) [
      | inl y ↦ rw y (
          selects (is_selected-IsWanted status technician s y)
            (filtered_sessions-Selected status technician ss))
      | inr n ↦ rw n (
          skips (IsWanted-is_selected status technician s n)
            (filtered_sessions-Selected status technician ss))
    ]

abbrev pub InLimits : ℤ → Type 0
InLimits l = (pos 1 ≤ℤ l) × (l ≤ℤ pos 1_000)

module _ (atoi : String → Option ℤ) where
  -- The number that a query gives, or the default if it gives none in range.
  pub data IsGiven (default : ℤ) (InRange : ℤ → Type 0) (text : String) (n : ℤ) : Type 0 where
    taken : atoi text ≡ some n → InRange n → IsGiven default InRange text n
    left_out : text ≡ "" → n ≡ default → IsGiven default InRange text n
    unreadable : atoi text ≡ none → n ≡ default → IsGiven default InRange text n
    out_of_range :
        (l : ℤ) → atoi text ≡ some l → ¬ InRange l → n ≡ default → IsGiven default InRange text n

  pub limit_of-IsGiven :
      (default : ℤ) (text : String) → IsGiven default InLimits text (limit_of atoi default text)
  unfolding limit_of
  limit_of-IsGiven default text = elim (Bool-cases (text == "")) [
    | inl y ↦ rw y (left_out ((eq_iff text "").0 y) refl)
    | inr n ↦ rw n (elim (Option-cases (atoi text)) [
      | inl e ↦ rw (e, limit_of) (unreadable e refl)
      | inr (l, e) ↦
          rw (e, limit_of)
            (elim (Bool-cases (ltb_ℤ (pos 0) l && leb_ℤ l (pos 1_000))) [
              | inl y ↦ rw y (taken e (ground arith))
              | inr n ↦ rw n (out_of_range l e (λ r. ground arith) refl)
            ])
    ])
  ]

  pub offset_of-IsGiven :
      (text : String) → IsGiven (pos 0) (λ o. pos 0 ≤ℤ o) text (offset_of atoi text)
  unfolding offset_of
  offset_of-IsGiven text = elim (Bool-cases (text == "")) [
    | inl y ↦ rw y (left_out ((eq_iff text "").0 y) refl)
    | inr n ↦ rw n (elim (Option-cases (atoi text)) [
      | inl e ↦ rw (e, offset_of) (unreadable e refl)
      | inr (l, e) ↦
          rw (e, offset_of)
            (elim (Bool-cases (leb_ℤ (pos 0) l)) [
              | inl y ↦ rw y (taken e (ground arith))
              | inr n ↦ rw n (out_of_range l e (λ r. ground arith) refl)
            ])
    ])
  ]
