-- ===== src/Client/Address.antt =====
-- client-parser.cpp: how the text of an address is cut into a host and a port.
use bomberrobots.Base.{
  ℕ, suc, ◌+◌, ◌≡◌, refl, ap, ◌∙◌, Bool, false, [], ◌∷◌, ◌++◌, Option, none, some, Result, ok, err,
  exited, ◌>>=◌, or_fail, ◌==◌, if◌then◌else◌, length, All, arith,
}
use bomberrobots.Messages.{Bytes}
use bomberrobots.Client.Stream.{take_bytes}
use bomberrobots.Client.Stream.RoundTrip.{take_bytes-append}

-- The loop, from the index `i` on, with the last position found so far.
unfoldable scan : ℕ → Bytes → Option ℕ → Option ℕ
scan i [] position = position
scan i (c ∷ str) position = scan (suc i) str (if c == b':' then some i else position)

-- `none` is `std::string::npos`.
unfoldable pub find_split_position : Bytes → Option ℕ
unfolding scan
find_split_position str = scan 0 str none

-- `parse_address_tcp` up to the call of the resolver: the two strings that it is given.
-- `lexical_cast<uint16_t>` is Boost's; `is_port` says of which strings it takes a number.
unfoldable pub address_parts : (Bytes → Bool) → Bytes → Result (Bytes × Bytes)
unfolding find_split_position
address_parts is_port endpoint_str = do
  position ← or_fail (find_split_position endpoint_str) exited
  let host = (take_bytes position endpoint_str).0
  let port = (take_bytes (suc position) endpoint_str).1
  if is_port port then ok (host, port) else err exited

-- Text without a colon.
abbrev pub NoColon : Bytes → Type 0
NoColon str = All (λ c. (c == b':') ≡ false) str

scan-NoColon :
    (i : ℕ) (str : Bytes) (position : Option ℕ) → NoColon str → scan i str position ≡ position
unfolding scan
scan-NoColon i [] position h = refl
scan-NoColon i (c ∷ str) position (h, hs) = rw h (scan-NoColon (suc i) str position hs)

scan-append :
    (i : ℕ) (host port : Bytes) (position : Option ℕ)
    → NoColon port
    → scan i (host ++ b':' ∷ port) position ≡ some (i + length host)
unfolding scan
scan-append i [] port position h = scan-NoColon (suc i) port (some i) h ∙ ap some (omega arith)
scan-append i (c ∷ host) port position h =
    scan-append (suc i) host port (if c == b':' then some i else position) h ∙ ap some (omega arith)

behind_lem : (host port : Bytes) → (take_bytes (suc (length host)) (host ++ b':' ∷ port)).1 ≡ port
unfolding take_bytes
behind_lem [] port = refl
behind_lem (c ∷ host) port = behind_lem host port

-- An address is cut at its last colon: the host may have colons of its own, as an IPv6 address has,
-- the port has none. Where `lexical_cast` does not take the port, the client leaves.
pub address_parts_lem :
    (is_port : Bytes → Bool) (host port : Bytes)
    → NoColon port
    → address_parts is_port (host ++ b':' ∷ port)
      ≡ (if is_port port then ok (host, port) else err exited)
unfolding address_parts find_split_position
address_parts_lem is_port host port h =
    let found : scan 0 (host ++ b':' ∷ port) none ≡ some (length host) =
      scan-append 0 host port none h ∙ ap some (omega arith) in
    rw found (
      ap
        (λ cut.
          let behind = (take_bytes (suc (length host)) (host ++ b':' ∷ port)).1 in
          if is_port behind then ok (cut.0, behind) else err exited)
        (take_bytes-append host (b':' ∷ port))
      ∙ ap (λ behind. if is_port behind then ok (host, behind) else err exited)
          (behind_lem host port))
