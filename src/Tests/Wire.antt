-- ===== src/Tests/Wire.antt =====
-- Messages as bytes, and the table of descriptors.
use bomberrobots.Base.{
  length, ℕ, zero, suc, ap, take, ◌<◌, ◌≡◌, ◌≢◌, refl, [], ◌∷◌, none, some, arith, if◌then◌else◌,
  ◌==◌, ok, ◌>>=◌,
}
use bomberrobots.Containers.Maps.{find}
use bomberrobots.Server.Connections.{success, error_msg, descriptor, accept_client}
use bomberrobots.Server.Connections.Table.{accept_client_lem}
use bomberrobots.Server.Handlers.{join, place_bomb, move, endless, execute, handle_msg, read_batch}
use bomberrobots.Server.Handlers.Batches.{
  request, requests, read_batch_ends, emptied, handle_msg-requests,
}
use bomberrobots.Encoding.{string_to_bytes}
use bomberrobots.Messages.{Bytes}
use bomberrobots.Server.Handlers.LongNames.{handle_msg-request_long}
use bomberrobots.Tests.Samples.{two_clients, duel}

-- Three messages in one read: the last one counts.
handle_msg-requests_example :
    handle_msg (some (requests (join (b'A' ∷ b'n' ∷ []) ∷ place_bomb ∷ move 2 ∷ []))) 2 duel
    ≡ (execute (move 2) 2 (emptied duel) >>= λ e'. ok (success, e'))
unfolding requests string_to_bytes
handle_msg-requests_example =
    handle_msg-requests (join (b'A' ∷ b'n' ∷ [])) (place_bomb ∷ move 2 ∷ []) 2 duel
      (omega arith, (tt, (omega arith, tt))) (omega arith)

read_batch_ends_example : read_batch 3 (1 ∷ 3 ∷ 0 ∷ []) ≢ endless
read_batch_ends_example = read_batch_ends 3 (1 ∷ 3 ∷ 0 ∷ []) (omega arith) (omega arith)

accept_client_lem_example :
    let h' = (accept_client (some 6) (b'c' ∷ []) two_clients).0 in
    (0 < 3)
    × (descriptor 3 two_clients.poll_descriptors ≡ none)
    × (find 3 h'.addresses ≡ some (b'c' ∷ []))
    × ((j : ℕ)
        → descriptor j h'.poll_descriptors
          ≡ (if 3 == j then some 6 else descriptor j two_clients.poll_descriptors))
unfolding accept_client
accept_client_lem_example = accept_client_lem (some 6) (b'c' ∷ []) two_clients 3 refl

-- The same byte, `n` times.
abbrev copies : ℕ → Bytes
copies zero = []
copies (suc n) = b'A' ∷ copies n

length-copies : (n : ℕ) → length (copies n) ≡ n
length-copies zero = refl
length-copies (suc n) = ap suc (length-copies n)

handle_msg-request_long_example :
    handle_msg (some (request (join (copies 255)))) 2 duel
    ≡ ok (
      error_msg,
      record duel {
        tcp_handler = record (duel.tcp_handler) { current_buf = take (copies 255) 254 };
      },
    )
handle_msg-request_long_example = handle_msg-request_long (copies 255) 2 duel (length-copies 255)
