-- ===== src/Requests/Dns/Copies.antt =====
-- The values that are copied from the addresses that libuv resolved.
use uvpp.Base.{
  Bool-cases, ap, ◌==◌, zero, none, Option, ltb, ◌+◌, if◌then◌else◌, is_some, suc, refl, ℕ, suc,
  ◌≡◌, refl, ◌∙◌, inl, inr, some, List, [], ◌∷◌, ◌++◌, map, append_assoc, append-nil, arith, sym,
  min, subst,
}
use uvpp.Requests.Dns.{
  Memory, memcpy, AddrInfo, AddressInfo, append_values, copy_socket_address, to_value, to_vector,
}

append_values_lem :
    (storage : ℕ) (chain : List AddrInfo) (out : List AddressInfo)
    → append_values storage chain out ≡ out ++ map (λ a. to_value storage (some a)) chain
unfolding append_values
append_values_lem storage [] out = sym (append-nil out)
append_values_lem storage (a ∷ chain) out =
    append_values_lem storage chain (out ++ to_value storage (some a) ∷ [])
    ∙ append_assoc out (to_value storage (some a) ∷ []) (map (λ b. to_value storage (some b)) chain)

abbrev pub get_elem? : {A : Type 0} → List A → ℕ → Option A
get_elem? [] i = none
get_elem? (x ∷ xs) zero = some x
get_elem? (x ∷ xs) (suc i) = get_elem? xs i

get_elem?-memcpy :
    (memory : Memory) (offset n i : ℕ)
    → get_elem? (memcpy memory offset n) i ≡ (if ltb i n then some (memory (offset + i)) else none)
unfolding memcpy
get_elem?-memcpy memory offset zero i = ground arith
get_elem?-memcpy memory offset (suc n) zero = ground arith
get_elem?-memcpy memory offset (suc n) (suc i) =
    get_elem?-memcpy memory (offset + 1) n i ∙ ground arith

-- The byte of an entry's address at some offset.
abbrev pub byte_at : Option Memory → ℕ → Option ℕ
byte_at none i = none
byte_at (some memory) i = some (memory i)

-- A value that is a copy of an entry: its fields, its name, and of its address the bytes that the
-- entry's length and the storage allow, at their offsets, and no others.
pub record IsCopy (storage : ℕ) (a : AddrInfo) (v : AddressInfo) : Type 0 where
  pub flags : v.flags ≡ a.flags
  pub family : v.family ≡ a.family
  pub socket_type : v.socket_type ≡ a.socket_type
  pub protocol : v.protocol ≡ a.protocol
  pub address_length : v.address_length ≡ a.address_length
  pub len : v.address.len ≡ (if is_some a.address then min a.address_length storage else 0)
  pub stored :
      (i : ℕ)
      → get_elem? v.address.bytes i ≡ (if ltb i v.address.len then byte_at a.address i else none)
  pub name : v.canonical_name ≡ (elim a.canonical_name [ none ↦ [] | some n ↦ n ])

-- The values are the copies of the entries, in order.
abbrev pub Copies : ℕ → List AddrInfo → List AddressInfo → Type 0
Copies storage [] [] = Unit
Copies storage [] (v ∷ vs) = ⊥
Copies storage (a ∷ chain) [] = ⊥
Copies storage (a ∷ chain) (v ∷ vs) = IsCopy storage a v × Copies storage chain vs

stored_address :
    (storage : ℕ) (address : Option Memory) (n : ℕ)
    → let copy = copy_socket_address storage address n in
      (copy.len ≡ (if is_some address then min n storage else 0))
      × ((i : ℕ) → get_elem? copy.bytes i ≡ (if ltb i copy.len then byte_at address i else none))
unfolding copy_socket_address
stored_address storage none n = (refl, λ i. ground arith)
stored_address storage (some memory) n = elim (Bool-cases (n == 0)) [
  | inl z ↦ (ground arith, λ i. rw (z) (ground arith))
  | inr z ↦ (
    ground arith,
    λ i. rw (z) (
        get_elem?-memcpy memory 0 (min n storage) i
        ∙ ap (λ k. if ltb i (min n storage) then some (memory k) else none) (omega arith)),
  )
]

to_value-IsCopy : (storage : ℕ) (a : AddrInfo) → IsCopy storage a (to_value storage (some a))
unfolding to_value
to_value-IsCopy storage a =
    let (n, bytes) = stored_address storage a.address a.address_length in
    record {
      flags = refl;
      family = refl;
      socket_type = refl;
      protocol = refl;
      address_length = refl;
      len = n;
      stored = bytes;
      name = refl;
    }

values-Copies :
    (storage : ℕ) (chain : List AddrInfo)
    → Copies storage chain (map (λ a. to_value storage (some a)) chain)
values-Copies storage [] = tt
values-Copies storage (a ∷ chain) = (to_value-IsCopy storage a, values-Copies storage chain)

pub to_vector-map :
    (storage : ℕ) (chain : List AddrInfo)
    → to_vector storage chain ≡ map (λ a. to_value storage (some a)) chain
unfolding to_vector
to_vector-map storage chain = append_values_lem storage chain []

-- The vector of the addresses that were resolved, for any chain of them, has one value for each entry,
-- in order: with the fields and the name of the entry, and with as many bytes of its address as the
-- entry's length says but at most the storage, each at its offset. So no copy reads past the length
-- that libuv gives or writes past the storage.
pub to_vector-Copies :
    (storage : ℕ) (chain : List AddrInfo) → Copies storage chain (to_vector storage chain)
to_vector-Copies storage chain =
    subst (Copies storage chain) (sym (to_vector-map storage chain)) (values-Copies storage chain)
