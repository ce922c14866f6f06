-- ===== src/Server/Connections/Broadcast.antt =====
-- server-tcp-handler.cpp: whom `send_message_to_all` sends to.
use bomberrobots.Base.{
  ℕ, zero, suc, ◌+◌, ◌≤◌, ◌≡◌, refl, sym, ap, ◌∙◌, inl, inr, List, [], ◌∷◌, ◌++◌, append-nil,
  append_assoc, map, none, some, arith, Option-cases, length, length-append,
}
use bomberrobots.Messages.{Bytes}
use bomberrobots.Server.Connections.{
  Pollfd, TcpHandler, descriptor, send_message, send_from, send_message_to_all,
}

-- The open descriptors of a part of the table, in order.
abbrev pub addressees : List Pollfd → List ℕ
addressees [] = []
addressees (d ∷ ds) = elim d.fd [ none ↦ addressees ds | some fd ↦ fd ∷ addressees ds ]

abbrev pub copies : Bytes → List Pollfd → List (ℕ × Bytes)
copies msg ds = map (λ fd. (fd, msg)) (addressees ds)

descriptor-append :
    (front : List Pollfd) (d : Pollfd) (ds : List Pollfd)
    → descriptor (length front) (front ++ d ∷ ds) ≡ d.fd
unfolding descriptor
descriptor-append [] d ds = refl
descriptor-append (x ∷ front) d ds = descriptor-append front d ds

descriptor_behind : (ds : List Pollfd) (i : ℕ) → length ds ≤ i → descriptor i ds ≡ none
unfolding descriptor
descriptor_behind [] i h = refl
descriptor_behind (d ∷ ds) zero h = absurd (omega arith)
descriptor_behind (d ∷ ds) (suc i) h = descriptor_behind ds i (omega arith)

-- Behind the table there is nobody.
send_from_nobody :
    (n i : ℕ) (msg : Bytes) (h : TcpHandler)
    → length h.poll_descriptors ≤ i
    → send_from n i msg h ≡ h
unfolding send_from send_message
send_from_nobody zero i msg h behind = refl
send_from_nobody (suc n) i msg h behind =
    rw (descriptor_behind h.poll_descriptors i behind, send_message)
      (send_from_nobody n (i + 1) msg h (omega arith))

-- One position.
send_one :
    (msg : Bytes) (h : TcpHandler) (i : ℕ) (d : Pollfd) (ds : List Pollfd)
    → descriptor i h.poll_descriptors ≡ d.fd
    → (sent : List (ℕ × Bytes)) × (send_message i msg h ≡ record h { sent = sent })
      × (sent ++ copies msg ds ≡ h.sent ++ copies msg (d ∷ ds))
unfolding send_message
send_one msg h i d ds here = elim (Option-cases d.fd) [
  | inl shut ↦ (h.sent, rw (here ∙ shut, send_message) refl, rw (shut, copies, addressees) refl)
  | inr (fd, opened) ↦ (
    h.sent ++ (fd, msg) ∷ [],
    rw (here ∙ opened, send_message) refl,
    rw (opened, copies, addressees) (append_assoc h.sent ((fd, msg) ∷ []) (copies msg ds)),
  )
]

send_from_lem :
    (n : ℕ) (msg : Bytes) (h : TcpHandler) (front ds : List Pollfd)
    → h.poll_descriptors ≡ front ++ ds
    → length ds ≤ n
    → (send_from n (length front) msg h).sent ≡ h.sent ++ copies msg ds
unfolding send_from
send_from_lem zero msg h front [] table fits = sym (append-nil h.sent)
send_from_lem zero msg h front (d ∷ ds) table fits = absurd (omega arith)
send_from_lem (suc n) msg h front [] table fits =
    ap (λ x. x.sent)
      (send_from_nobody (suc n) (length front) msg h
        (omega (arith, ap length table, length-append front [])))
    ∙ sym (append-nil h.sent)
send_from_lem (suc n) msg h front (d ∷ ds) table fits =
    let next : length front + 1 ≡ length (front ++ d ∷ []) =
      omega (arith, length-append front (d ∷ [])) in
    let here : descriptor (length front) h.poll_descriptors ≡ d.fd =
      ap (descriptor (length front)) table ∙ descriptor-append front d ds in
    let (sent, one, all) = send_one msg h (length front) d ds here in
    let h' : TcpHandler = record h { sent = sent } in
    ap (λ x. (send_from n (length front + 1) msg x).sent) one
    ∙ ap (λ i. (send_from n i msg h').sent) next
    ∙ send_from_lem n msg h' (front ++ d ∷ []) ds (table ∙ sym (append_assoc front (d ∷ []) ds))
        (omega arith)
    ∙ all

-- In a table of up to 26 descriptors, behind the listening socket `send_message_to_all` hands the
-- message to each open descriptor once, in the order of the positions, and to nobody else.
pub send_message_to_all_sent :
    (msg : Bytes) (h : TcpHandler) (d : Pollfd) (ds : List Pollfd)
    → h.poll_descriptors ≡ d ∷ ds
    → length ds ≤ 25
    → (send_message_to_all msg h).sent ≡ h.sent ++ copies msg ds
unfolding send_message_to_all
send_message_to_all_sent msg h d ds table fits = send_from_lem 25 msg h (d ∷ []) ds table fits
