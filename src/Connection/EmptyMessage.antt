-- ===== src/Connection/EmptyMessage.antt =====
-- The nodes of a message without a body, on their way through a connection.
use lssvc.Common.{
  List, [], ap, arith, ge→ltb, length, none, refl, some, suc, sym, true, ℕ, ◌++◌, ◌+◌, ◌-◌, ◌∙◌,
  ◌∷◌, ◌≡◌, ◌≤◌,
}
use lssvc.Connection.{
  Connection, advance, bytes, calling, init, on_write, send_nodes, take_sent, write_loop, wrote,
}
use lssvc.Connection.Faults.{write_loop-hangs, zeros}
use lssvc.Chunk.{Packet}
use lssvc.Chunk.Send.{Outbound, buffer_size, build_chunk}
use lssvc.Chunk.Send.Single.{IsPlain, build_chunk-read}
use lssvc.Chunk.Loop as Loop
use mathlib.Core.List.{append-nil}

minus_self : (n : ℕ) → n - n ≡ 0
minus_self n = omega arith

abbrev given : Connection → List ℕ → Connection
given d head = record d { pending = head ∷ [] ∷ [] }

head_taken :
    (k : ℕ) (d : Connection) (head : List ℕ)
    → (c' : Connection) × (write_loop (wrote (length head) ∷ zeros k) (given d head)
        ≡ some (calling c'))
unfolding write_loop advance
head_taken k d [] =
    let c' = take_sent (given d []) 0 ([] ∷ [] ∷ []) in
    (c', write_loop-hangs k c' [] ([] ∷ []) refl (unfold bytes in refl))
head_taken k d (x ∷ xs) =
    let c' = take_sent (given d (x ∷ xs)) (suc (length xs)) ([] ∷ []) in
    (
      c',
      simp (ge→ltb (suc (length xs)) (suc (length xs)) (omega arith), minus_self (suc (length xs)))
          (write_loop-hangs k c' [] [] refl (unfold bytes in refl)),
    )

-- A message of no bytes, the first on its stream and with its fields within their widths, ends in a
-- node of no bytes. Once the kernel has taken the header, `onWrite` never comes back: however often
-- it calls `writev`, which has nothing left to take, it calls again.
pub empty_message-hangs :
    (o : Outbound) (p : Packet) (ts : ℕ)
    → IsPlain p.header ts
    → p.body ≡ []
    → p.header.msg_len ≡ 0
    → o.used + 14 ≤ buffer_size
    → o.prevs p.header.cs_id ≡ none
    → o.buffers ≡ []
    → (o' : Outbound) × (n : ℕ) × (build_chunk o p ts true ≡ some o')
      × (n ≡ length (bytes o'.buffers))
      × ((k : ℕ)
          → (c : Connection) × (on_write (wrote n ∷ zeros k) (send_nodes init o'.buffers)
              ≡ some (calling c)))
unfolding on_write send_nodes
empty_message-hangs o p ts plain empty len room first idle =
    let (o', head, e, buffers, _) =
      build_chunk-read o p ts Loop.init [] (λ s xs. none) plain (len ∙ sym (ap length empty))
        (omega (arith, ap (λ (xs : List ℕ). length xs) empty))
        (omega (arith, ap (λ (xs : List ℕ). length xs) empty)) (omega arith) room first refl in
    let nodes : o'.buffers ≡ head ∷ [] ∷ [] =
      buffers
      ∙ ap (λ (bs : List (List ℕ)). (bs ++ (head ∷ [])) ++ (p.body ∷ [])) idle
      ∙ ap (λ (b : List ℕ). head ∷ b ∷ []) empty in
    (
      o',
      length head,
      e,
      sym (ap (λ vs. length (bytes vs)) nodes ∙ unfold bytes in ap length (append-nil head)),
      λ k. let (c, w) = head_taken k (record init { writing = true }) head in (c, simp nodes w),
    )
