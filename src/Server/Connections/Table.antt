-- ===== src/Server/Connections/Table.antt =====
-- The table of descriptors of server-tcp-handler.cpp: what accepting and closing a connection and
-- sending do to it, and that each client has an address.
use bomberrobots.Base.{
  ℕ, zero, suc, ◌+◌, ◌-◌, ◌^◌, ◌≤◌, ◌<◌, ◌≡◌, refl, sym, ap, subst, ◌∙◌, Bool, true, false, inl,
  inr, List, [], ◌∷◌, ◌++◌, map, Option, none, some, arith, ◌==◌, if◌then◌else◌, Option-cases,
  length, set, get_elem?,
}
use bomberrobots.Containers.Maps.{find, contains, contains-insert_or_assign, find-insert_or_assign}
use bomberrobots.Messages.{Bytes}
use bomberrobots.Server.Connections.{
  Pollfd, TcpHandler, MessageRecvStatus, success, end_conn, new_handler, closed_slots, descriptor,
  reset_slot, reset_revents, report_events, poll_exec, free_slot, accept_slot, accept_client,
  close_slot, report_msg_status, send_message, send_from, send_message_to_all,
}

-- Each client has an address.
abbrev pub Addressed : TcpHandler → Type 0
Addressed h =
    (i fd : ℕ)
    → descriptor (suc i) h.poll_descriptors ≡ some fd
    → contains (suc i) h.addresses ≡ true

descriptor-closed_slots : (i n : ℕ) → descriptor i (closed_slots n) ≡ none
unfolding descriptor closed_slots
descriptor-closed_slots i zero = refl
descriptor-closed_slots zero (suc n) = refl
descriptor-closed_slots (suc i) (suc n) = descriptor-closed_slots i n

pub new_handler-Addressed : (socket_fd : ℕ) → Addressed (new_handler socket_fd)
unfolding new_handler descriptor
new_handler-Addressed socket_fd i fd h = absurd (let h' = descriptor-closed_slots i 25 in cc)

send_message_lem :
    (i : ℕ) (msg : Bytes) (h : TcpHandler)
    → (sent : List (ℕ × Bytes)) × (send_message i msg h ≡ record h { sent = sent })
unfolding send_message
send_message_lem i msg h = elim (Option-cases (descriptor i h.poll_descriptors)) [
  | inl shut ↦ (h.sent, rw (shut, send_message))
  | inr (fd, open_at) ↦ (h.sent ++ (fd, msg) ∷ [], rw (open_at, send_message))
]

send_from_lem :
    (n i : ℕ) (msg : Bytes) (h : TcpHandler)
    → (sent : List (ℕ × Bytes)) × (send_from n i msg h ≡ record h { sent = sent })
unfolding send_from
send_from_lem zero i msg h = (h.sent, refl)
send_from_lem (suc n) i msg h =
    let (sent, once) = send_message_lem i msg h in
    let (sent', rest) = send_from_lem n (i + 1) msg (record h { sent = sent }) in
    (sent', rw once rest)

-- Sending changes nothing but what was sent.
pub send_message_to_all_lem :
    (msg : Bytes) (h : TcpHandler)
    → (sent : List (ℕ × Bytes)) × (send_message_to_all msg h ≡ record h { sent = sent })
unfolding send_message_to_all
send_message_to_all_lem msg h = send_from_lem 25 1 msg h

pub Addressed-send_message_to_all :
    (msg : Bytes) (h : TcpHandler) → Addressed h → Addressed (send_message_to_all msg h)
Addressed-send_message_to_all msg h a =
    let (sent, same) = send_message_to_all_lem msg h in subst Addressed (sym same) a

pub Addressed-send_message :
    (i : ℕ) (msg : Bytes) (h : TcpHandler) → Addressed h → Addressed (send_message i msg h)
Addressed-send_message i msg h a =
    let (sent, same) = send_message_lem i msg h in subst Addressed (sym same) a

pub descriptor-set :
    (j i : ℕ) (d : Pollfd) (ds : List Pollfd)
    → i < length ds
    → descriptor j (set ds i d) ≡ (if i == j then d.fd else descriptor j ds)
unfolding descriptor
descriptor-set j i d [] h = elim h [ ]
descriptor-set zero zero d (x ∷ ds) h = ground arith
descriptor-set (suc j) zero d (x ∷ ds) h = ground arith
descriptor-set zero (suc i) d (x ∷ ds) h = ground arith
descriptor-set (suc j) (suc i) d (x ∷ ds) h = descriptor-set j i d ds (omega arith) ∙ ground arith

set_outside : (i : ℕ) (d : Pollfd) (ds : List Pollfd) → length ds ≤ i → set ds i d ≡ ds
set_outside i d [] h = refl
set_outside zero d (x ∷ ds) h = absurd (omega arith)
set_outside (suc i) d (x ∷ ds) h = ap (◌∷◌ x) (set_outside i d ds (omega arith))

free_slot_lem :
    (base i : ℕ) (ds : List Pollfd)
    → free_slot base ds ≡ some i
    → (k : ℕ) × (i ≡ base + k) × (k < length ds) × (descriptor k ds ≡ none)
unfolding free_slot descriptor
free_slot_lem base i [] h = absurd (cc)
free_slot_lem base i (d ∷ ds) h = elim (Option-cases d.fd) [
  | inl free ↦ (0, ground arith, omega arith, free)
  | inr (fd, taken) ↦
      (let (k, at_k, lt, free) = free_slot_lem (base + 1) i ds (ground arith) in
        (suc k, omega arith, omega arith, free))
]

accept_slot_lem :
    (i : ℕ) (ds : List Pollfd)
    → accept_slot ds ≡ some i
    → (k : ℕ) × (i ≡ suc k) × (i < length ds) × (descriptor i ds ≡ none)
unfolding accept_slot descriptor
accept_slot_lem i [] h = absurd (cc)
accept_slot_lem i (d ∷ ds) h =
    let (k, at_k, lt, free) = free_slot_lem 1 i ds h in
    let same : i ≡ suc k = omega arith in (k, same, omega arith, rw same free)

module _ (client_fd : Option ℕ) (address : Bytes) (h : TcpHandler) where
  -- An accepted client takes a position behind the listening socket that was free. Every other
  -- position keeps its descriptor, and the client's address is found under its position.
  pub accept_client_lem :
      (i : ℕ)
      → (accept_client client_fd address h).1 ≡ some i
      → let h' = (accept_client client_fd address h).0 in
        (0 < i)
        × (descriptor i h.poll_descriptors ≡ none)
        × (find i h'.addresses ≡ some address)
        × ((j : ℕ)
            → descriptor j h'.poll_descriptors
              ≡ (if i == j then client_fd else descriptor j h.poll_descriptors))
  unfolding accept_client
  accept_client_lem i e = elim (Option-cases (accept_slot h.poll_descriptors)) [
    | inl full ↦ absurd (let e' = rw (full, accept_client) at e in cc)
    | inr (i', free) ↦
        (let same : i' ≡ i = ground arith in
          let (k, at_k, lt, shut) = accept_slot_lem i' h.poll_descriptors free in
          (
            omega arith,
            rw same at shut,
            rw (free, accept_client)
                (ground (arith, find-insert_or_assign i i' address h.addresses)),
            λ j.
                rw (free, accept_client)
                  (ground (
                    arith,
                    descriptor-set j i' (record { fd = client_fd; pollin = false; pollerr = false })
                        h.poll_descriptors lt,
                  )),
          ))
  ]

  pub accept_client-Addressed : Addressed h → Addressed (accept_client client_fd address h).0
  unfolding accept_client
  accept_client-Addressed a j fd at_j = elim (Option-cases (accept_slot h.poll_descriptors)) [
    | inl full ↦
        rw (full, accept_client)
          (ground (
            arith,
            a j fd (rw (full, accept_client) at at_j),
            contains-insert_or_assign (suc j) (2 ^ 64 - 1) address h.addresses,
          ))
    | inr (i, free) ↦
        (let (k, at_k, lt, shut) = accept_slot_lem i h.poll_descriptors free in
          let at_j' = rw (free, accept_client) at at_j in
          rw (free, accept_client)
            (ground (
              arith,
              at_j',
              a j fd,
              descriptor-set (suc j) i (record { fd = client_fd; pollin = false; pollerr = false })
                  h.poll_descriptors lt,
              contains-insert_or_assign (suc j) i address h.addresses,
            )))
  ]

-- Closing only takes descriptors away.
descriptor-set_closed :
    (j i : ℕ) (d : Pollfd) (ds : List Pollfd) {fd : ℕ}
    → d.fd ≡ none
    → descriptor j (set ds i d) ≡ some fd
    → descriptor j ds ≡ some fd
unfolding descriptor
descriptor-set_closed j i d [] shut h = h
descriptor-set_closed zero zero d (x ∷ ds) shut h = cc
descriptor-set_closed (suc j) zero d (x ∷ ds) shut h = h
descriptor-set_closed zero (suc i) d (x ∷ ds) shut h = h
descriptor-set_closed (suc j) (suc i) d (x ∷ ds) shut h = descriptor-set_closed j i d ds shut h

descriptor-map : (j : ℕ) (ds : List Pollfd) → descriptor j (map reset_slot ds) ≡ descriptor j ds
unfolding descriptor reset_slot
descriptor-map j [] = refl
descriptor-map zero (d ∷ ds) = refl
descriptor-map (suc j) (d ∷ ds) = descriptor-map j ds

descriptor-report_events :
    (j : ℕ) (ds : List Pollfd) (events : List (Bool × Bool))
    → descriptor j (report_events ds events) ≡ descriptor j ds
unfolding descriptor report_events
descriptor-report_events j [] events = refl
descriptor-report_events j (d ∷ ds) [] = refl
descriptor-report_events zero (d ∷ ds) ((pollin, pollerr) ∷ events) = refl
descriptor-report_events (suc j) (d ∷ ds) ((pollin, pollerr) ∷ events) =
    descriptor-report_events j ds events

pub reset_revents-Addressed : (h : TcpHandler) → Addressed h → Addressed (reset_revents h)
unfolding reset_revents
reset_revents-Addressed h a j fd at_j =
    a j fd (sym (descriptor-map (suc j) h.poll_descriptors) ∙ at_j)

pub poll_exec-Addressed :
    (h : TcpHandler) (events : List (Bool × Bool)) → Addressed h → Addressed (poll_exec h events)
unfolding poll_exec
poll_exec-Addressed h events a j fd at_j =
    a j fd (sym (descriptor-report_events (suc j) h.poll_descriptors events) ∙ at_j)

close_slot_lem : (d : Option Pollfd) → (close_slot d).fd ≡ none
unfolding close_slot
close_slot_lem none = refl
close_slot_lem (some d) = refl

pub report_msg_status-Addressed :
    (status : MessageRecvStatus) (i : ℕ) (h : TcpHandler)
    → Addressed h
    → Addressed (report_msg_status status i h)
unfolding report_msg_status
report_msg_status-Addressed success i h a = a
report_msg_status-Addressed _ i h a = λ j fd at_j. a j fd (
    descriptor-set_closed (suc j) i (close_slot (get_elem? h.poll_descriptors i)) h.poll_descriptors
      (close_slot_lem (get_elem? h.poll_descriptors i)) at_j)

pub descriptor-report_msg_status :
    (i : ℕ) (h : TcpHandler)
    → i < length h.poll_descriptors
    → descriptor i (report_msg_status end_conn i h).poll_descriptors ≡ none
unfolding report_msg_status
descriptor-report_msg_status i h lt =
    let shut = close_slot (get_elem? h.poll_descriptors i) in
    descriptor-set i i shut h.poll_descriptors lt
    ∙ ground (arith, close_slot_lem (get_elem? h.poll_descriptors i))

pub accept_client-sent :
    (client_fd : Option ℕ) (address : Bytes) (h : TcpHandler)
    → (accept_client client_fd address h).0.sent ≡ h.sent
unfolding accept_client
accept_client-sent client_fd address h = elim (Option-cases (accept_slot h.poll_descriptors)) [
  | inl full ↦ rw (full, accept_client) refl
  | inr (i, free) ↦ rw (free, accept_client) refl
]
