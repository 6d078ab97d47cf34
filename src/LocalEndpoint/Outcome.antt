-- ===== src/LocalEndpoint/Outcome.antt =====
-- How get_local_ipv4 ends: its answer, its complaint, and the socket that it has opened.
use nettverk.Prelude.{
  ◌≡◌, ◌⊎◌, refl, true, false, none, some, ℕ, ◌+◌, ℤ, Option, ◌∷◌, Bytes, Bool-cases, Option-cases,
  inl, inr, is_negative, ascii,
}
use nettverk.Net.{Os, SockAddr, af_inet}
use nettverk.Io.{Io, print_error}
use nettverk.LocalEndpoint.{get_local_ipv4, ask_route, ask_name}

-- Nothing was found out and one complaint was written, or there is an address and no complaint.
abbrev pub Answered : Io → Io × Option ℕ → Type 0
Answered io r =
    ((r.1 ≡ none) × ((text : Bytes) × (r.0.out ≡ print_error text ∷ io.out)))
    ⊎ ((ip : ℕ) × (r.1 ≡ some ip) × (r.0.out ≡ io.out))

-- Answered, and `::close` was called once more, on `fd`.
abbrev pub Ends : ℤ → Io → Io × Option ℕ → Type 0
Ends fd io r = Answered io r × (r.0.closed ≡ fd ∷ io.closed)

name-Ends : (os : Os) (s : ℤ) (io : Io) → Ends s io (ask_name os s io)
unfolding ask_name
name-Ends os s io = elim (Bool-cases (is_negative (os.getsockname io.calls s).0.result)) [
  | inl e ↦ rw e (inl (refl, (_, refl)), refl)
  | inr e ↦ rw e (inr (_, refl, refl), refl)
]

route-Ends : (os : Os) (s : ℤ) (ip : ℕ) (io : Io) → Ends s io (ask_route os s ip io)
unfolding ask_route
route-Ends os s ip io =
    let addr : SockAddr = record { family = af_inet; port = os.htons 53; ip = ip } in
    elim (Bool-cases (is_negative (os.connect_socket io.calls s addr).result)) [
      | inl e ↦ rw e (inl (refl, (_, refl)), refl)
      | inr e ↦ rw e (name-Ends os s (record io { calls = io.calls + 1 }))
    ]

-- `get_local_ipv4` either has no address and has written one complaint, or has an address and has
-- written none. Where `::socket` fails, there is no address and nothing is closed; else that socket,
-- and nothing more, is closed on every path.
pub get_local_ipv4_cases :
    (os : Os) (io : Io)
    → let fd = (os.open_socket io.calls).result in
      let r = get_local_ipv4 os io in
      ((is_negative fd ≡ true) × (r.1 ≡ none) × Answered io r × (r.0.closed ≡ io.closed))
      ⊎ ((is_negative fd ≡ false) × Ends fd io r)
unfolding get_local_ipv4
get_local_ipv4_cases os io = elim (Bool-cases (is_negative (os.open_socket io.calls).result)) [
  | inl e ↦ inl (e, rw e refl, rw e (inl (refl, (_, refl))), rw e refl)
  | inr e ↦ inr (
    e,
    rw e (elim (Option-cases (os.inet_pton (ascii "8.8.8.8"))) [
      | inl f ↦ rw f (inl (refl, (_, refl)), refl)
      | inr (ip, f) ↦
          rw f
            (route-Ends os (os.open_socket io.calls).result ip (record io { calls = io.calls + 1 }))
    ]),
  )
]
