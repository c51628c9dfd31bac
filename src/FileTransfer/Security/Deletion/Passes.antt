-- ===== src/FileTransfer/Security/Deletion/Passes.antt =====
-- security.go: what `SecureDelete` leaves of a file when nothing fails.
use mathlib.Core.List.{append_assoc}
use onli_desk_full.Common.{
  ◌≡◌, refl, sym, ap, ◌∙◌, ℕ, zero, suc, ◌+◌, ◌-◌, ◌≤◌, ◌<◌, true, false, none, List, [], ◌∷◌, ◌++◌,
  arith, ltb, length, take, drop, length-append, length-drop, take-length-append, if◌then◌else◌,
  Bool-cases, inl, inr,
}
use onli_desk_full.FileTransfer.Chunks.{Bytes}
use onli_desk_full.FileTransfer.Security.Deletion.{
  buffer_size, block, Disk, OpenFile, write_at, overwrite, Deletion, delete_from, secure_delete,
}

-- The random bytes of a pass from offset `w` on, `left` in all, drawn at most 4096 at a time.
unfoldable pub drawn : (ℕ → ℕ → Bytes) → ℕ → ℕ → ℕ → Bytes
drawn random zero w left = []
drawn random (suc fuel) w left =
    let n = if ltb left buffer_size then left else buffer_size in
    let rest = drawn random fuel (w + n) (left - n) in if ltb 0 left then random w n ++ rest else []

-- Nothing fails, and `rand.Read` fills the buffer.
pub record IsWilling (d : Disk) : Type 0 where
  pub sized : (p w n : ℕ) → length (d.random p w n) ≡ n
  pub draws : (p w : ℕ) → d.draws p w ≡ true
  pub writes : (p w : ℕ) → d.fails p w ≡ none
  pub seeks : (p : ℕ) → d.seeks p ≡ true
  pub syncs : (p : ℕ) → d.syncs p ≡ true

drop-append-add : (xs ys : Bytes) (n : ℕ) → drop (length xs + n) (xs ++ ys) ≡ drop n ys
drop-append-add [] ys n = let e : 0 + n ≡ n = omega arith in ap (λ (k : ℕ). drop k ys) e
drop-append-add (x ∷ xs) ys n =
    let e : suc (length xs) + n ≡ suc (length xs + n) = omega arith in
    ap (λ (k : ℕ). drop k (x ∷ (xs ++ ys))) e ∙ drop-append-add xs ys n

write_at-contents :
    (before rest bytes : Bytes) (f : OpenFile)
    → f.contents ≡ before ++ rest
    → f.position ≡ length before
    → (write_at bytes f).contents ≡ (before ++ bytes) ++ drop (length bytes) rest
unfolding write_at
write_at-contents before rest bytes f c p =
    ap (λ (k : ℕ). take k f.contents ++ (bytes ++ drop (k + length bytes) f.contents)) p
    ∙ ap
        (λ (xs : Bytes).
          take (length before) xs ++ (bytes ++ drop (length before + length bytes) xs))
        c
    ∙ ap (λ (xs : Bytes). xs ++ (bytes ++ drop (length before + length bytes) (before ++ rest)))
        (take-length-append before rest)
    ∙ ap (λ (xs : Bytes). before ++ (bytes ++ xs)) (drop-append-add before rest (length bytes))
    ∙ sym (append_assoc before bytes (drop (length bytes) rest))

abbrev part : ℕ → ℕ
part left = if ltb left buffer_size then left else buffer_size

drawn-step :
    (random : ℕ → ℕ → Bytes) (fuel w left : ℕ)
    → 0 < left
    → drawn random (suc fuel) w left
      ≡ random w (part left) ++ drawn random fuel (w + part left) (left - part left)
unfolding drawn
drawn-step random fuel w left h = let on : ltb 0 left ≡ true = ground (arith, h) in rw on refl

-- The file after a pass over it, from offset `w` on.
overwrite-drawn :
    (d : Disk)
    → IsWilling d
    → (pass fuel size w : ℕ) (before rest : Bytes) (f : OpenFile) → f.contents ≡ before ++ rest
    → f.position ≡ length before
    → w + length rest ≡ size
    → length rest ≤ fuel
    → let r = overwrite d pass fuel size w f in
      (r.1 ≡ true) × (r.0.contents ≡ before ++ drawn (d.random pass) fuel w (length rest))
unfolding overwrite drawn
overwrite-drawn d i pass zero size w before [] f c p e l = (refl, c)
overwrite-drawn d i pass zero size w before (x ∷ rest) f c p e l = absurd (omega (arith, l))
overwrite-drawn d i pass (suc fuel) size w before [] f c p e l =
    let over : ltb w size ≡ false = ground (arith, e) in rw over (refl, c)
overwrite-drawn d i pass (suc fuel) size w before (x ∷ rest) f c p e l =
    let on : ltb w size ≡ true = ground (arith, e) in
    let n : ℕ = block size w in
    let same : n ≡ part (length (x ∷ rest)) = ground (arith, e) in
    let bytes : Bytes = d.random pass w n in
    let g : OpenFile = write_at bytes f in
    let few = length-drop {0} (length bytes) (x ∷ rest) in
    let (done, all) =
      overwrite-drawn d i pass fuel size (w + n) (before ++ bytes) (drop (length bytes) (x ∷ rest))
        g (write_at-contents before (x ∷ rest) bytes f c p)
        (unfold write_at in omega (arith, p, length-append {0} before bytes))
        (ground (arith, few, e, i.sized pass w n)) (ground (arith, few, l, i.sized pass w n)) in
    rw (on, i.draws pass w, i.writes pass w, overwrite)
      (
        done,
        all
            ∙ append_assoc before bytes
                (drawn (d.random pass) fuel (w + n) (length (drop (length bytes) (x ∷ rest))))
            ∙ ap (λ (xs : Bytes). before ++ xs)
                (ap (λ (k : ℕ). bytes ++ drawn (d.random pass) fuel (w + n) k)
                    (few ∙ ap (λ (k : ℕ). length (x ∷ rest) - k) (i.sized pass w n))
                  ∙ ap
                      (λ (m : ℕ).
                        d.random pass w m
                        ++ drawn (d.random pass) fuel (w + m) (length (x ∷ rest) - m))
                      same
                  ∙ sym (drawn-step (d.random pass) fuel w (length (x ∷ rest)) (omega arith))),
      )

length-drawn :
    (random : ℕ → ℕ → Bytes) (fuel w left : ℕ)
    → ((v n : ℕ) → length (random v n) ≡ n)
    → left ≤ fuel
    → length (drawn random fuel w left) ≡ left
unfolding drawn
length-drawn random zero w left z h = omega (arith, h)
length-drawn random (suc fuel) w left z h = elim (Bool-cases (ltb 0 left)) [
  | inr n ↦ rw n (ground (arith, n))
  | inl y ↦
      let m : ℕ = part left in
      let one : 0 < m = ground (arith, y) in
      let few : m ≤ left = ground arith in
      rw y (
        omega (
          arith,
          z w m,
          few,
          length-append {0} (random w m) (drawn random fuel (w + m) (left - m)),
          length-drawn random fuel (w + m) (left - m) z (omega (arith, h, one, few)),
        ))
]

-- The random bytes of a pass over a file.
abbrev pub pass_over : Disk → ℕ → ℕ → Bytes
pass_over d size pass = drawn (d.random pass) size 0 size

delete_from-step :
    (d : Disk) (left pass size : ℕ) (f : OpenFile) (synced : List Bytes)
    → IsWilling d
    → length f.contents ≡ size
    → (g : OpenFile) × (g.contents ≡ pass_over d size pass)
      × (length g.contents ≡ size)
      × (delete_from d (suc left) pass size f synced
          ≡ delete_from d left (suc pass) size g (synced ++ g.contents ∷ []))
unfolding delete_from
delete_from-step d left pass size f synced i e =
    let (done, all) =
      overwrite-drawn d i pass size size 0 [] f.contents (record f { position = 0 }) refl refl
        (omega (arith, e)) (omega (arith, e)) in
    let g : OpenFile = (overwrite d pass size size 0 (record f { position = 0 })).0 in
    let made : g.contents ≡ pass_over d size pass =
      all ∙ ap (λ (k : ℕ). drawn (d.random pass) size 0 k) e in
    (
      g,
      made,
      ap (λ (xs : Bytes). length xs) made
          ∙ length-drawn (d.random pass) size 0 size (i.sized pass) (omega arith),
      rw (i.seeks pass, done, i.syncs pass, delete_from) refl,
    )

-- If nothing fails and `rand.Read` fills the buffer, the file is overwritten three times from its
-- start: after each pass it is synced, and then it is as long as before and holds the random bytes of
-- that pass and no other, drawn at most 4096 at a time. In the end it is removed, if that is possible.
pub secure_delete_overwrites :
    (d : Disk) (file : Bytes)
    → IsWilling d
    → let r = secure_delete d file in
      let size = length file in
      (r.synced ≡ pass_over d size 0 ∷ pass_over d size 1 ∷ pass_over d size 2 ∷ [])
      × (r.contents ≡ pass_over d size 2)
      × ((pass : ℕ) → length (pass_over d size pass) ≡ size)
      × (r.removed ≡ d.removes)
unfolding secure_delete delete_from
secure_delete_overwrites d file i =
    let size : ℕ = length file in
    let (f, a, l, x) =
      delete_from-step d 2 0 size (record { contents = file; position = 0 }) [] i refl in
    let (g, b, m, y) = delete_from-step d 1 1 size f (f.contents ∷ []) i l in
    let (h, c, n, z) = delete_from-step d 0 2 size g (f.contents ∷ g.contents ∷ []) i m in
    let all = x ∙ y ∙ z in
    (
      ap (λ (r : Deletion). r.synced) all
          ∙ ap (λ (xs : Bytes). xs ∷ g.contents ∷ h.contents ∷ []) a
          ∙ ap (λ (xs : Bytes). pass_over d size 0 ∷ xs ∷ h.contents ∷ []) b
          ∙ ap (λ (xs : Bytes). pass_over d size 0 ∷ pass_over d size 1 ∷ xs ∷ []) c,
      ap (λ (r : Deletion). r.contents) all ∙ c,
      λ pass. length-drawn (d.random pass) size 0 size (i.sized pass) (omega arith),
      ap (λ (r : Deletion). r.removed) all,
    )
