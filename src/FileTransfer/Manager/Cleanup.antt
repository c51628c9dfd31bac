-- ===== src/FileTransfer/Manager/Cleanup.antt =====
-- transfer_session.go: `performCleanup`, against what it does to each session.
use onli_desk_full.Common.{
  ◌≡◌, refl, ℤ, String, Bool, not, none, some, [], ◌∷◌, arith, eq_iff, if◌then◌else◌,
}
use onli_desk_full.Common.Map.{Map, IsMap, lookup}
use onli_desk_full.FileTransfer.Handler.{FileSystem}
use onli_desk_full.FileTransfer.Manager.{
  TransferManager, keep_values, should_cleanup, perform_cleanup,
}

module _ {ℓ} {V : Type ℓ} (p : V → Bool) where
  lookup-keep_values-none :
      (k : String) (m : Map V) → lookup k m ≡ none → lookup k (keep_values p m) ≡ none
  unfolding lookup
  lookup-keep_values-none k [] h = refl
  lookup-keep_values-none k ((j, v) ∷ m) h = ground (arith, lookup-keep_values-none k m)

  pub lookup-keep_values :
      (k : String) (m : Map V)
      → IsMap m
      → lookup k (keep_values p m)
        ≡ elim (lookup k m) [ none ↦ none | some v ↦ if p v then some v else none ]
  unfolding lookup
  lookup-keep_values k [] d = refl
  lookup-keep_values k ((j, v) ∷ m) d =
      ground (arith, eq_iff j k, d, lookup-keep_values k m d.1, lookup-keep_values-none k m)

module _ (os : FileSystem) where
  -- In a map where each key stands once, a cleanup takes out exactly the sessions that have been
  -- completed, failed or cancelled for more than an hour, and leaves every other as it was.
  pub lookup-perform_cleanup :
      (now : ℤ) (m : TransferManager os)
      → IsMap m.sessions
      → (k : String)
      → lookup k (perform_cleanup os now m).sessions ≡ elim (lookup k m.sessions) [
        | none ↦ none
        | some s ↦ if should_cleanup os now s then none else some s
      ]
  unfolding perform_cleanup
  lookup-perform_cleanup now m d k =
      ground (arith, lookup-keep_values (λ s. not (should_cleanup os now s)) k m.sessions d)
