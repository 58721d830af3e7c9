-- ===== src/Api/Rooms/Arrives.antt =====
-- A rooms response as the service sends it: it is encoded before `EncodeFds` zeroes its fields, so
-- that the client decodes descriptors onto the service's own numbers. When more descriptors are sent
-- than the client has room for, only the first ones arrive.
use spacetest.Base.{
  ℕ, ◌≤◌, ◌-◌, ◌+◌, length, length-append, arith, All, zero, suc, ℤ, true, List, [], ◌∷◌, ◌++◌, map,
  take, ok, ◌≡◌, refl, ap, sym, ◌∙◌, positive, Bool-cases, inl, inr, some, if◌then◌else◌,
}
use mathlib.Core.List.{append-nil}
use spacetest.Spaces.{
  clone_newcgroup, clone_newipc, clone_newns, clone_newnet, clone_newtime, clone_newuts,
}
use spacetest.Kernel.{Kernel, State}
use spacetest.Api.Rooms.{RoomsResponse, encode_fds, stow, decode_fds}
use spacetest.Api.Rooms.Transfer.{IsTyped, received, encode_fds_lem, decode_one}
use spacetest.Api.Fds.Laws.{piece, carried}

-- A field on the receiver's side and how many descriptors there is room for after it: an open one
-- has its new number while there is room, and the sender's number otherwise.
abbrev pub arrive : (ℤ → ℤ) → ℕ → ℤ → ℤ × ℕ
arrive renumber zero fd = (fd, zero)
arrive renumber (suc n) fd = if positive fd then (renumber fd, n) else (fd, suc n)

abbrev pub arrived : (ℤ → ℤ) → ℕ → RoomsResponse → RoomsResponse
arrived renumber n r =
    let (cgroup, n₁) = arrive renumber n r.cgroup in
    let (ipc, n₂) = arrive renumber n₁ r.ipc in
    let (mnt, n₃) = arrive renumber n₂ r.mnt in
    let (net, n₄) = arrive renumber n₃ r.net in
    let (time, n₅) = arrive renumber n₄ r.time in
    let (uts, n₆) = arrive renumber n₅ r.uts in
    record { cgroup = cgroup; ipc = ipc; mnt = mnt; net = net; time = time; uts = uts }

take_nil : {A : Type 0} (n : ℕ) → take {A = A} n [] ≡ []
take_nil zero = refl
take_nil (suc n) = refl

module _ (k : Kernel) (s : State k) (renumber : ℤ → ℤ) where
  -- A descriptor arrives as one of a namespace of a type, if it is open and there is room for it.
  abbrev pub Typed : ℕ → ℕ → ℤ → Type 0
  Typed zero typ fd = Unit
  Typed (suc n) typ fd = positive fd ≡ true → k.nstype (renumber fd) s.world ≡ ok typ

  -- Each open descriptor that there is room for arrives as one of a namespace of its field's type.
  pub record IsTypedFirst (n : ℕ) (r : RoomsResponse) : Type 0 where
    pub cgroup : Typed n clone_newcgroup r.cgroup
    pub ipc : Typed (arrive renumber n r.cgroup).1 clone_newipc r.ipc
    pub mnt : Typed (arrive renumber (arrive renumber n r.cgroup).1 r.ipc).1 clone_newns r.mnt
    pub net :
        Typed
          (arrive renumber (arrive renumber (arrive renumber n r.cgroup).1 r.ipc).1 r.mnt).1
          clone_newnet
          r.net
    pub time :
        Typed
          (arrive renumber
            (arrive renumber (arrive renumber (arrive renumber n r.cgroup).1 r.ipc).1 r.mnt).1
            r.net).1
          clone_newtime
          r.time
    pub uts :
        Typed
          (arrive renumber
            (arrive renumber
              (arrive renumber (arrive renumber (arrive renumber n r.cgroup).1 r.ipc).1 r.mnt).1
              r.net).1
            r.time).1
          clone_newuts
          r.uts

  arriving-Typed :
      (n typ : ℕ) (fd : ℤ)
      → (positive fd ≡ true → k.nstype (renumber fd) s.world ≡ ok typ)
      → Typed n typ fd
  arriving-Typed zero typ fd h = tt
  arriving-Typed (suc n) typ fd h = h

  pub IsTyped-First : (n : ℕ) (r : RoomsResponse) → IsTyped k s renumber r → IsTypedFirst n r
  IsTyped-First n r h = record {
    cgroup = arriving-Typed _ _ r.cgroup h.cgroup;
    ipc = arriving-Typed _ _ r.ipc h.ipc;
    mnt = arriving-Typed _ _ r.mnt h.mnt;
    net = arriving-Typed _ _ r.net h.net;
    time = arriving-Typed _ _ r.time h.time;
    uts = arriving-Typed _ _ r.uts h.uts;
  }

  -- With six open fields and room for four, this concerns the first four.
  pub first_four-IsTypedFirst :
      (r : RoomsResponse)
      → All (λ fd. positive fd ≡ true) (r.cgroup ∷ r.ipc ∷ r.mnt ∷ r.net ∷ [])
      → k.nstype (renumber r.cgroup) s.world ≡ ok clone_newcgroup
      → k.nstype (renumber r.ipc) s.world ≡ ok clone_newipc
      → k.nstype (renumber r.mnt) s.world ≡ ok clone_newns
      → k.nstype (renumber r.net) s.world ≡ ok clone_newnet
      → IsTypedFirst 4 r
  first_four-IsTypedFirst r (cgroup, (ipc, (mnt, (net, _)))) is_cgroup is_ipc is_mnt is_net =
      record {
        cgroup = λ _. is_cgroup;
        ipc = rw cgroup λ _. is_ipc;
        mnt = rw (cgroup, ipc) λ _. is_mnt;
        net = rw (cgroup, ipc, mnt) λ _. is_net;
        time = rw (cgroup, ipc, mnt, net) tt;
        uts = rw (cgroup, ipc, mnt, net) tt;
      }

  decode_arrive :
      (typ : ℕ) (put : ℤ → RoomsResponse → RoomsResponse) (get : RoomsResponse → ℤ)
      → ((fd : ℤ) (r : RoomsResponse) → stow typ fd r ≡ some (put fd r))
      → ((r : RoomsResponse) → put (get r) r ≡ r)
      → (fd : ℤ) (n : ℕ) → Typed n typ fd
      → (rest : List ℤ) (r : RoomsResponse) → get r ≡ fd
      → decode_fds k (take n (map renumber (piece fd ++ rest))) r s
        ≡ decode_fds k
            (take (arrive renumber n fd).1 (map renumber rest))
            (put (arrive renumber n fd).0 r)
            s
  decode_arrive typ put get puts same fd zero typed rest r gets =
      ap (λ t. decode_fds k [] t s) (sym (same r) ∙ ap (λ x. put x r) gets)
  decode_arrive typ put get puts same fd (suc n) typed rest r gets =
      elim (Bool-cases (positive fd)) [
        | inl p ↦ rw p (
            decode_one k s renumber typ (renumber fd) (take n (map renumber rest)) r _ (typed p)
              (puts _ r))
        | inr c ↦ rw c (
            ap (λ t. decode_fds k (take (suc n) (map renumber rest)) t s)
              (sym (same r) ∙ ap (λ x. put x r) gets))
      ]

  -- Of a rooms response that arrives with its fields as the sender had them, `DecodeFds` on as many
  -- of the descriptors as there is room for gives each open field its new number, in the order of
  -- cgroup, ipc, mnt, net, time, uts and while there is room, if each of these arrives as one of a namespace
  -- of its field's type; every further field keeps the number that it has on the sender's side.
  -- Nothing is closed.
  pub decode_fds-arrived :
      (n : ℕ) (r : RoomsResponse)
      → IsTypedFirst n r
      → decode_fds k (take n (map renumber (encode_fds r).0)) r s ≡ (ok (arrived renumber n r), s)
  unfolding stow
  decode_fds-arrived n r typed = rw encode_fds_lem (
      decode_arrive clone_newcgroup (λ fd t. record t { cgroup = fd }) (λ t. t.cgroup)
        (λ fd t. refl) (λ t. refl) r.cgroup n typed.cgroup _ _ refl
      ∙ decode_arrive clone_newipc (λ fd t. record t { ipc = fd }) (λ t. t.ipc) (λ fd t. refl)
          (λ t. refl) r.ipc _ typed.ipc _ _ refl
      ∙ decode_arrive clone_newns (λ fd t. record t { mnt = fd }) (λ t. t.mnt) (λ fd t. refl)
          (λ t. refl) r.mnt _ typed.mnt _ _ refl
      ∙ decode_arrive clone_newnet (λ fd t. record t { net = fd }) (λ t. t.net) (λ fd t. refl)
          (λ t. refl) r.net _ typed.net _ _ refl
      ∙ decode_arrive clone_newtime (λ fd t. record t { time = fd }) (λ t. t.time) (λ fd t. refl)
          (λ t. refl) r.time _ typed.time _ _ refl
      ∙ decode_arrive clone_newuts (λ fd t. record t { uts = fd }) (λ t. t.uts) (λ fd t. refl)
          (λ t. refl) r.uts _ typed.uts [] _ refl
      ∙ rw take_nil (unfold decode_fds in refl))

-- While there is room, `arrive` gives the new number and uses the room for one descriptor.
arrive-carried :
    (renumber : ℤ → ℤ) (n : ℕ) (fd : ℤ)
    → length (piece fd) ≤ n
    → arrive renumber n fd ≡ (carried renumber fd, n - length (piece fd))
arrive-carried renumber zero fd fits = elim (Bool-cases (positive fd)) [
  | inl p ↦ absurd (omega (arith, ap (λ b. length (if b then fd ∷ [] else [])) p))
  | inr c ↦ rw c refl
]
arrive-carried renumber (suc n) fd fits = elim (Bool-cases (positive fd)) [
  | inl p ↦ rw p (ap (λ m. (renumber fd, m)) (omega arith))
  | inr c ↦ rw c (ap (λ m. (fd, m)) (omega arith))
]

length-encode_fds :
    (r : RoomsResponse)
    → length (encode_fds r).0
      ≡ length (piece r.cgroup)
        + (length (piece r.ipc)
            + (length (piece r.mnt)
                + (length (piece r.net) + (length (piece r.time) + length (piece r.uts)))))
length-encode_fds r = rw encode_fds_lem (simp (length-append, append-nil))

-- With room for all of the descriptors, every open field arrives.
pub arrived-received :
    (renumber : ℤ → ℤ) (n : ℕ) (r : RoomsResponse)
    → length (encode_fds r).0 ≤ n
    → arrived renumber n r ≡ received renumber r
arrived-received renumber n r fits =
    let total = length-encode_fds r in
    let n₁ = n - length (piece r.cgroup) in
    let n₂ = n₁ - length (piece r.ipc) in
    let n₃ = n₂ - length (piece r.mnt) in
    let n₄ = n₃ - length (piece r.net) in
    let n₅ = n₄ - length (piece r.time) in
    rw
      (
        arrive-carried renumber n r.cgroup (omega arith),
        arrive-carried renumber n₁ r.ipc (omega arith),
        arrive-carried renumber n₂ r.mnt (omega arith),
        arrive-carried renumber n₃ r.net (omega arith),
        arrive-carried renumber n₄ r.time (omega arith),
        arrive-carried renumber n₅ r.uts (omega arith),
      )
      refl

-- With six open fields and room for four, the last two keep the sender's numbers.
abbrev pub first_four : (ℤ → ℤ) → RoomsResponse → RoomsResponse
first_four renumber r = record r {
  cgroup = renumber r.cgroup;
  ipc = renumber r.ipc;
  mnt = renumber r.mnt;
  net = renumber r.net;
}

pub arrived-first_four :
    (renumber : ℤ → ℤ) (r : RoomsResponse)
    → All (λ fd. positive fd ≡ true) (r.cgroup ∷ r.ipc ∷ r.mnt ∷ r.net ∷ [])
    → arrived renumber 4 r ≡ first_four renumber r
arrived-first_four renumber r (cgroup, (ipc, (mnt, (net, _)))) = rw (cgroup, ipc, mnt, net) refl
