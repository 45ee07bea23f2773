-- ===== src/Detector/Runtime/Capture/Ports.antt =====
-- The ports that `parseListeningPorts` of internal/detector/runtimewatch/runtimewatch.go gives are in order.
use my_safe.Prelude.{
  ℕ, ◌<◌, ◌==◌, ◌≡◌, refl, ◌⊎◌, inl, inr, true, false, ◌||◌, ◌&&◌, Option, none, some, List, [],
  ◌∷◌, ◌++◌, arith, All, length, ltb, leb, Bool-cases, Option-cases,
}
use my_safe.Prelude.Text.{Text, codes, text_eq, text_eq_refl, is_empty, cut_byte, has_suffix}
use my_safe.Prelude.Text.Lines.{scan_lines, fields, trim_byte, parse_hex, parse_hex-lt}
use my_safe.Prelude.Text.Number.{show_nat}
use my_safe.Prelude.Dict.{Dict, insert}
use my_safe.Prelude.Maps.{All-insert}
use my_safe.Detector.Runtime.{PortEntry, tcp4, tcp6, wildcard, loopback, specific}
use my_safe.Detector.Runtime.State.{valid_port}
use my_safe.Detector.Runtime.State.Checks.{IsPort}
use my_safe.Detector.Runtime.Capture.{
  address_scope, to_upper, listening_socket, sockets_from, parse_listening_ports, put_all,
  table_ports, Table, missing, unreadable, table,
}

abbrev pub IsFamily : Text → Type 0
IsFamily family = (family ≡ tcp4) ⊎ (family ≡ tcp6)

abbrev IsScope : Text → Type 0
IsScope scope = (text_eq scope wildcard || text_eq scope loopback || text_eq scope specific) ≡ true

address_scope-IsScope : (address family : Text) → IsScope (address_scope address family)
unfolding address_scope text_eq
address_scope-IsScope address family = elim (Bool-cases (is_empty (trim_byte b'0' address))) [
  | inl zero_address ↦ rw zero_address refl
  | inr other ↦
      elim (Bool-cases
        (text_eq family tcp4 && length address == 8 && has_suffix address (codes "00007F"))) [
          | inl local4 ↦ rw (other, local4) refl
          | inr not4 ↦
              elim (Bool-cases (
                text_eq family tcp6
                && (text_eq address (codes "00000000000000000000000001000000")
                    || text_eq address (codes "00000000000000000000000000000001")))) [
                      | inl local6 ↦ rw (other, not4, local6) refl
                      | inr not6 ↦ rw (other, not4, not6) refl
                    ]
        ]
]

family_known :
    (family : Text) → IsFamily family → (text_eq family tcp4 || text_eq family tcp6) ≡ true
unfolding text_eq
family_known family (inl four) = rw four refl
family_known family (inr six) = rw six refl

the_socket-IsPort :
    (family address : Text) (port : ℕ)
    → IsFamily family
    → (port == 0) ≡ false
    → port < 65536
    → let key = family ++ codes "|" ++ address ++ codes "|" ++ show_nat port in
      IsPort (
        key,
        record {
          key = key;
          family = family;
          port = port;
          scope = address_scope address family;
          protocol = codes "tcp";
        },
      )
unfolding valid_port
the_socket-IsPort family address port h some_port low =
    let key : Text = family ++ codes "|" ++ address ++ codes "|" ++ show_nat port in
    let not_over : ltb 65535 port ≡ false = ground arith in
    rw
      (
        text_eq_refl key,
        text_eq_refl (codes "tcp"),
        family_known family h,
        some_port,
        not_over,
        address_scope-IsScope address family,
      )
      refl

abbrev IsPortOption : Option PortEntry → Type 0
IsPortOption none = Unit
IsPortOption (some p) = IsPort (p.key, p)

listening_socket-IsPort :
    (family : Text) (ts : List Text) → IsFamily family → IsPortOption (listening_socket family ts)
unfolding listening_socket
listening_socket-IsPort family [] h = tt
listening_socket-IsPort family (a ∷ []) h = tt
listening_socket-IsPort family (a ∷ b ∷ []) h = tt
listening_socket-IsPort family (a ∷ b ∷ c ∷ []) h = tt
listening_socket-IsPort family (a ∷ b ∷ c ∷ state ∷ more) h =
    elim (Bool-cases (text_eq state (codes "0A"))) [
      | inr other ↦ rw other tt
      | inl listening ↦ elim (Option-cases (cut_byte b':' b)) [
        | inl bad ↦ rw (listening, bad) tt
        | inr ((raw_address, raw_port), parts) ↦ elim (Option-cases (parse_hex 16 raw_port)) [
          | inl bad ↦ rw (listening, parts, bad) tt
          | inr (port, parsed) ↦ elim (Bool-cases (port == 0)) [
            | inl zero_port ↦ rw (listening, parts, parsed, zero_port) tt
            | inr some_port ↦
                rw (listening, parts, parsed, some_port)
                  (the_socket-IsPort family (to_upper raw_address) port h some_port
                    (parse_hex-lt raw_port port parsed))
          ]
        ]
      ]
    ]

sockets_from-IsPort :
    (family : Text) (limit : ℕ) (lines : List Text) (found : Dict PortEntry)
    → IsFamily family
    → All IsPort found
    → All IsPort (sockets_from family limit lines found).0
unfolding sockets_from
sockets_from-IsPort family limit [] found h all = all
sockets_from-IsPort family limit (line ∷ lines) found h all =
    elim (Option-cases (listening_socket family (fields line))) [
      | inl no_socket ↦
          rw (no_socket, sockets_from) (sockets_from-IsPort family limit lines found h all)
      | inr (p, socket) ↦
          let valid : IsPort (p.key, p) =
            rw socket at (listening_socket-IsPort family (fields line) h) in
          let all' = All-insert IsPort p.key p found valid all in
          elim (Bool-cases (leb limit (length (insert p.key p found)))) [
            | inl full ↦ rw (socket, full, sockets_from) all'
            | inr room ↦
                rw (socket, room, sockets_from)
                  (sockets_from-IsPort family limit lines (insert p.key p found) h all')
          ]
    ]

put_all-IsPort :
    (new ports : Dict PortEntry)
    → All IsPort new
    → All IsPort ports
    → All IsPort (put_all new ports)
unfolding put_all
put_all-IsPort [] ports h all = all
put_all-IsPort ((k, p) ∷ new) ports h all =
    put_all-IsPort new (insert k p ports) h.1 (All-insert IsPort k p ports h.0 all)

pub table_ports-IsPort :
    (family : Text) (limit : ℕ) (source : Table) (ports : Dict PortEntry)
    → IsFamily family
    → All IsPort ports
    → All IsPort (table_ports family limit source ports).2
unfolding table_ports parse_listening_ports
table_ports-IsPort family limit missing ports h all = elim (Bool-cases (text_eq family tcp6)) [
  | inl optional ↦ rw optional all
  | inr needed ↦ rw needed all
]
table_ports-IsPort family limit unreadable ports h all = all
table_ports-IsPort family limit (table content) ports h all =
    put_all-IsPort (sockets_from family limit (scan_lines content) []).0 ports
      (sockets_from-IsPort family limit (scan_lines content) [] h tt) all
