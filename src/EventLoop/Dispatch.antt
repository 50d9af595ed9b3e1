-- ===== src/EventLoop/Dispatch.antt =====
-- Whose handlers a loop calls.
use mathlib.Core.List.{append_assoc}
use lssvc.EventLoop.{
  Call, Ready, call_for, dispatch, dispatch_one, is_skipped, looked_up, make_call, on_close,
  on_error, on_read, on_write,
}
use lssvc.Common.{
  >>=-eq-some, All, All-append, List, Option, [], ap, arith, if◌then◌else◌, none, refl, some, sym,
  ℕ, ◌++◌, ◌>>=◌, ◌∙◌, ◌∷◌, ◌≡◌, ◌≢◌,
}

abbrev pub subject : Call → ℕ
subject (on_error h) = h
subject (on_close h) = h
subject (on_read h) = h
subject (on_write h) = h

abbrev pub IsOther : ℕ → Call → Type 0
IsOther h c = subject c ≢ h

call_for-subject : (r : Ready) (h : ℕ) (c : Call) → call_for r h ≡ some c → subject c ≡ h
unfolding call_for
call_for-subject r h c e = ground (arith, e)

-- The call that each entry is due, in order: that of its event as the table stands.
abbrev pub one : Option Call → List Call
one none = []
one (some c) = c ∷ []

unfoldable pub due : (ℕ → Option ℕ) → List (ℕ × Ready) → List Call
due events [] = []
due events ((fd, r) ∷ ready) =
    one ((if is_skipped fd then none else events fd) >>= call_for r) ++ due events ready

abbrev pub IsAbsent {ℓ} : {S : Type ℓ} → (S → ℕ → Option ℕ) → ℕ → S → Type 0
IsAbsent registry h s = (fd : ℕ) → registry s fd ≢ some h

module _ {ℓ} {S : Type ℓ} (registry : S → ℕ → Option ℕ) (handler : Call → S → S) where
  called :
      (h fd : ℕ) (r : Ready) (l : S) (c : Call)
      → IsAbsent registry h l
      → (looked_up registry l fd >>= call_for r) ≡ some c
      → IsOther h c
  unfolding looked_up
  called h fd r l c absent e same =
      let (g, found, e') = >>=-eq-some (looked_up registry l fd) (call_for r) e in
      let there : registry l fd ≡ some g = ground (arith, found) in
      absent fd (there ∙ ap some (sym (call_for-subject r g c e') ∙ same))

  make_call-others :
      (h : ℕ) (l : S) (o : Option Call)
      → ((c : Call) (k : S) → IsAbsent registry h k → IsAbsent registry h (handler c k))
      → IsAbsent registry h l
      → ((c : Call) → o ≡ some c → IsOther h c)
      → IsAbsent registry h (make_call registry handler l o).0
        × All (IsOther h) (make_call registry handler l o).1
  unfolding make_call
  make_call-others h l none kept absent others = (absent, tt)
  make_call-others h l (some c) kept absent others = (kept c l absent, (others c refl, tt))

  absent-others :
      (h : ℕ) (ready : List (ℕ × Ready)) (l : S)
      → ((c : Call) (k : S) → IsAbsent registry h k → IsAbsent registry h (handler c k))
      → IsAbsent registry h l
      → All (IsOther h) (dispatch registry handler l ready).1
  unfolding dispatch dispatch_one looked_up
  absent-others h [] l kept absent = tt
  absent-others h ((fd, r) ∷ ready) l kept absent =
      let (still, others) =
        make_call-others h l (looked_up registry l fd >>= call_for r) kept absent
          (λ c e. called h fd r l c absent e) in
      All-append (IsOther h) _ _ others (absent-others h ready _ kept still)

  -- The calls of a batch in two parts.
  dispatch-append :
      (ready more : List (ℕ × Ready)) (l : S)
      → (dispatch registry handler l (ready ++ more)).1
        ≡ (dispatch registry handler l ready).1
          ++ (dispatch registry handler (dispatch registry handler l ready).0 more).1
  unfolding dispatch
  dispatch-append [] more l = refl
  dispatch-append ((fd, r) ∷ ready) more l =
      let (l', calls) = dispatch_one registry handler l fd r in
      ap (λ (rest : List Call). calls ++ rest) (dispatch-append ready more l')
      ∙ sym (append_assoc calls (dispatch registry handler l' ready).1 _)

  -- Of a batch that is dispatched, take a first part after which an event is not registered, be it
  -- that a handler of that part has deleted it or that it never was. Where no handler registers it
  -- again, all the calls for the rest of the same batch, which come after those for the first part,
  -- are for other events.
  pub dispatch-others :
      (h : ℕ) (ready more : List (ℕ × Ready)) (l : S)
      → ((c : Call) (k : S) → IsAbsent registry h k → IsAbsent registry h (handler c k))
      → IsAbsent registry h (dispatch registry handler l ready).0
      → (later : List Call) × ((dispatch registry handler l (ready ++ more)).1
          ≡ (dispatch registry handler l ready).1 ++ later)
        × All (IsOther h) later
  dispatch-others h ready more l kept absent =
      let l' = (dispatch registry handler l ready).0 in
      (
        (dispatch registry handler l' more).1,
        dispatch-append ready more l,
        absent-others h more l' kept absent,
      )
