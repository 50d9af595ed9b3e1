-- ===== src/Connection/Writing.antt =====
-- What a connection writes against the bytes that it was given.
use lssvc.Common.{
  Bool-cases, List, [], ap, arith, drop, false, inl, inr, length, length-drop, refl, some, sym,
  take, take-append-drop, ℕ, ◌++◌, ◌+◌, ◌-◌, ◌<◌, ◌∙◌, ◌∷◌, ◌≡◌, ◌≤◌,
}
use lssvc.Connection.{
  Answer, Connection, Progress, advance, again, broken, bytes, calling, complete, is_empty,
  on_close, on_write, returned, send_nodes, take_sent, write_loop, wrote,
}
use lssvc.Connection.Stream.{advance_lem, bytes-append}
use mathlib.Core.List.{append_assoc}
use mathlib.Core.Path.{subst}

-- All the bytes given to an open connection: what was taken, and behind it what is pending.
abbrev pub stream : Connection → List ℕ
stream c = c.sent ++ bytes c.pending

pub take_sent-stream :
    (c : Connection) (n : ℕ) (vs : List (List ℕ))
    → bytes vs ≡ drop n (bytes c.pending)
    → stream (take_sent c n vs) ≡ stream c
take_sent-stream c n vs e =
    append_assoc c.sent (take n (bytes c.pending)) (bytes vs)
    ∙ ap (λ xs. c.sent ++ (take n (bytes c.pending) ++ xs)) e
    ∙ ap (◌++◌ c.sent) (take-append-drop n (bytes c.pending))

-- The kernel takes no more than it is given.
unfoldable pub Fits : List Answer → ℕ → Type 0
Fits [] left = Unit {0}
Fits (again ∷ answers) left = Unit {0}
Fits (broken ∷ answers) left = Unit {0}
Fits (wrote n ∷ answers) left = (n ≤ left) × Fits answers (left - n)

abbrev pub of_progress : Progress → Connection
of_progress (returned c) = c
of_progress (calling c) = c

-- Where `onWrite` comes back with the callback called, nothing is pending.
abbrev pub Writes : Connection → Progress → Type 0
Writes c p =
    (stream (of_progress p) ≡ stream c)
    × ((of_progress p).completed ≤ c.completed + 1)
    × (c.completed < (of_progress p).completed → bytes (of_progress p).pending ≡ [])

write_loop-Writes :
    (answers : List Answer) (c : Connection)
    → Fits answers (length (bytes c.pending))
    → (p : Progress) × (write_loop answers c ≡ some p) × Writes c p
unfolding write_loop Fits bytes
write_loop-Writes [] c h = (calling c, refl, (refl, omega arith, λ l. absurd (omega (arith, l))))
write_loop-Writes (again ∷ answers) c h =
    (returned c, refl, (refl, omega arith, λ l. absurd (omega (arith, l))))
write_loop-Writes (broken ∷ answers) c h =
    (returned (on_close c), refl, (refl, omega arith, λ l. absurd (omega (arith, l))))
write_loop-Writes (wrote n ∷ answers) c (fits, more) =
    let (vs, e, left) = advance_lem n c.pending fits in
    let same = take_sent-stream c n vs left in
    go vs e left same
      (write_loop-Writes answers (take_sent c n vs) (subst (Fits answers) (size vs left) more))
  where
    size :
        (vs : List (List ℕ))
        → bytes vs ≡ drop n (bytes c.pending)
        → length (bytes c.pending) - n ≡ length (bytes vs)
    size vs left = sym (ap length left ∙ length-drop n (bytes c.pending))

    go :
        (vs : List (List ℕ))
        → advance n c.pending ≡ some vs
        → bytes vs ≡ drop n (bytes c.pending)
        → stream (take_sent c n vs) ≡ stream c
        → (p : Progress) × (write_loop answers (take_sent c n vs) ≡ some p)
          × Writes (take_sent c n vs) p
        → (p : Progress) × (write_loop (wrote n ∷ answers) c ≡ some p) × Writes c p
    go [] e left same _ =
        (returned (complete (take_sent c n [])), rw e refl, (same, omega arith, λ l. refl))
    go (v ∷ vs) e left same (p, r, (s, k, done)) = (p, rw e r, (s ∙ same, k, done))

send_nodes-stream :
    (c : Connection) (nodes : List (List ℕ))
    → c.closed ≡ false
    → (stream (send_nodes c nodes) ≡ stream c ++ bytes nodes)
      × ((send_nodes c nodes).closed ≡ false)
      × ((send_nodes c nodes).completed ≡ c.completed)
unfolding send_nodes
send_nodes-stream c nodes open_c = elim (Bool-cases (is_empty (c.pending ++ nodes))) [
  | inl e ↦ simp (open_c, e) (whole, refl, refl)
  | inr e ↦ simp (open_c, e) (whole, refl, refl)
]
  where
    whole : c.sent ++ bytes (c.pending ++ nodes) ≡ (c.sent ++ bytes c.pending) ++ bytes nodes
    whole =
        ap (◌++◌ c.sent) (bytes-append c.pending nodes)
        ∙ sym (append_assoc c.sent (bytes c.pending) (bytes nodes))

on_write-Writes :
    (answers : List Answer) (c : Connection)
    → c.closed ≡ false
    → Fits answers (length (bytes c.pending))
    → (p : Progress) × (on_write answers c ≡ some p) × Writes c p
unfolding on_write
on_write-Writes answers c open_c fits = by_pending c.pending refl
  where
    by_pending :
        (vs : List (List ℕ))
        → c.pending ≡ vs
        → (p : Progress) × (on_write answers c ≡ some p) × Writes c p
    by_pending [] e = (
      returned (complete c),
      simp (open_c, e) refl,
      (refl, omega arith, λ l. simp e (unfold bytes in refl)),
    )
    by_pending (v ∷ vs) e =
        let (p, r, w) = write_loop-Writes answers c fits in (p, simp (open_c, e) r, w)

-- Nodes given to an open connection, then written with answers that take no more than there is:
-- `onWrite` does not fault; what the kernel took and what is pending behind it are the bytes given
-- so far and those of the nodes, in order; and write_complete_cb_ is called once at most, and only
-- with nothing left to write.
pub send_nodes-on_write :
    (c : Connection) (nodes : List (List ℕ)) (answers : List Answer)
    → c.closed ≡ false
    → Fits answers (length (bytes (send_nodes c nodes).pending))
    → (p : Progress) × (on_write answers (send_nodes c nodes) ≡ some p)
      × (stream (of_progress p) ≡ stream c ++ bytes nodes)
      × ((of_progress p).completed ≤ c.completed + 1)
      × (c.completed < (of_progress p).completed → bytes (of_progress p).pending ≡ [])
send_nodes-on_write c nodes answers open_c fits =
    let (same, still, count) = send_nodes-stream c nodes open_c in
    let (p, e, (kept, once, done)) = on_write-Writes answers (send_nodes c nodes) still fits in
    (p, e, kept ∙ same, omega (arith, once, count), λ l. done (omega (arith, l, count)))
