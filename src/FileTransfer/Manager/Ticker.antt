-- ===== src/FileTransfer/Manager/Ticker.antt =====
-- transfer_session.go: `cleanupRoutine` and the tickers that `UpdateConfig` and `Shutdown` replace and
-- stop, as a relation of steps. Tickers are numbered as they are made; the channel of each holds at
-- most one tick, and `Stop` does not empty it.
use onli_desk_full.Common.{◌≡◌, refl, ℕ, suc, ◌<◌, Bool, true, false, if◌then◌else◌, nat_beq, arith}

-- Where the goroutine is: about to choose, at the `select` with the channel of a ticker, in
-- `performCleanup`, or at its end.
pub data Routine : Type 0 where
  looping cleaning returned : Routine
  waiting_on : ℕ → Routine

-- `is_running` is about the ticker that the manager has; `cleanups` counts the calls of the goroutine
-- that ended.
pub record Ticking : Type 0 where
  pub current : ℕ
  pub is_running : Bool
  pub holds : ℕ → Bool
  pub is_closed : Bool
  pub routine : Routine
  pub cleanups : ℕ

abbrev set : ℕ → Bool → (ℕ → Bool) → ℕ → Bool
set n b f k = if nat_beq k n then b else f k

unfoldable pub new_ticking : Ticking
new_ticking = record {
  current = 0;
  is_running = true;
  holds = λ n. false;
  is_closed = false;
  routine = looping;
  cleanups = 0;
}

-- `UpdateConfig`: the old ticker is stopped and another made, which panics if the interval is not
-- positive.
unfoldable pub update_ticker : Bool → Ticking → Ticking
update_ticker true t = record t {
  current = suc t.current;
  is_running = true;
  holds = set (suc t.current) false t.holds;
}
update_ticker false t = record t { is_running = false }

pub data Step (t : Ticking) : Ticking → Type 0 where
  selects : t.routine ≡ looping → Step t (record t { routine = waiting_on t.current })
  ticks : t.is_running ≡ true → Step t (record t { holds = set t.current true t.holds })
  receives :
      (n : ℕ)
      → t.routine ≡ waiting_on n
      → t.holds n ≡ true
      → Step t (record t { routine = cleaning; holds = set n false t.holds })
  cleans : t.routine ≡ cleaning → Step t (record t { routine = looping; cleanups = suc t.cleanups })
  updates : (positive : Bool) → Step t (update_ticker positive t)
  shuts_down : t.is_closed ≡ false → Step t (record t { is_closed = true; is_running = false })
  returns :
      (n : ℕ)
      → t.routine ≡ waiting_on n
      → t.is_closed ≡ true
      → Step t (record t { routine = returned })

pub data Reach (s : Ticking) : Ticking → Type 0 where
  here : Reach s s
  later : {t u : Ticking} → Reach s t → Step t u → Reach s u

-- The goroutine waits for a ticker that was replaced, whose channel is empty, or has returned.
pub data IsStuck (count : ℕ) (t : Ticking) : Type 0 where
  replaced :
      (n : ℕ)
      → t.routine ≡ waiting_on n
      → n < t.current
      → t.holds n ≡ false
      → t.cleanups ≡ count
      → IsStuck count t
  ended : t.routine ≡ returned → t.cleanups ≡ count → IsStuck count t

Step-IsStuck : {count : ℕ} {t u : Ticking} → IsStuck count t → Step t u → IsStuck count u
unfolding update_ticker
Step-IsStuck (replaced n w l f c) (selects r) = absurd (ground arith)
Step-IsStuck (ended r c) (selects r') = absurd (ground arith)
Step-IsStuck (replaced n w l f c) (ticks r) = replaced n w l (ground arith) c
Step-IsStuck (ended r c) (ticks r') = ended r c
Step-IsStuck (replaced n w l f c) (receives m r h) = absurd (ground arith)
Step-IsStuck (ended r c) (receives m r' h) = absurd (ground arith)
Step-IsStuck (replaced n w l f c) (cleans r) = absurd (ground arith)
Step-IsStuck (ended r c) (cleans r') = absurd (ground arith)
Step-IsStuck (replaced n w l f c) (updates true) = replaced n w (omega arith) (ground arith) c
Step-IsStuck (replaced n w l f c) (updates false) = replaced n w l f c
Step-IsStuck (ended r c) (updates true) = ended r c
Step-IsStuck (ended r c) (updates false) = ended r c
Step-IsStuck (replaced n w l f c) (shuts_down o) = replaced n w l f c
Step-IsStuck (ended r c) (shuts_down o) = ended r c
Step-IsStuck (replaced n w l f c) (returns m r o) = ended refl c
Step-IsStuck (ended r c) (returns m r' o) = ended refl c

Reach-IsStuck : {count : ℕ} {s t : Ticking} → IsStuck count s → Reach s t → IsStuck count t
Reach-IsStuck a here = a
Reach-IsStuck a (later r x) = Step-IsStuck (Reach-IsStuck a r) x

IsStuck-cleanups : {count : ℕ} {t : Ticking} → IsStuck count t → t.cleanups ≡ count
IsStuck-cleanups (replaced n w l f c) = c
IsStuck-cleanups (ended r c) = c

-- While the goroutine waits for the manager's ticker, which runs and whose channel is empty, a tick
-- leads to one more cleanup of the goroutine. If the configuration is updated first, to an interval
-- that is positive, then no steps lead to another one.
pub updated_never_cleans :
    (t : Ticking)
    → t.routine ≡ waiting_on t.current
    → t.is_running ≡ true
    → t.holds t.current ≡ false
    → ((u : Ticking) × Reach t u × (u.cleanups ≡ suc t.cleanups))
      × ((u : Ticking) → Reach (update_ticker true t) u → u.cleanups ≡ t.cleanups)
unfolding update_ticker
updated_never_cleans t w r e = (
  (
    _,
    later (later (later here (ticks r)) (receives t.current w (ground arith))) (cleans refl),
    refl,
  ),
  λ u x.
      IsStuck-cleanups (Reach-IsStuck (replaced t.current w (omega arith) (ground arith) refl) x),
)
