-- ===== src/Api/Rooms/Transfer.antt =====
-- A rooms response sent and received: `EncodeFds` on one side, `DecodeFds` on the other, where the
-- kernel has given each descriptor a number of the receiver's.
use spacetest.Base.{
  ℕ, ℤ, true, List, [], ◌∷◌, ◌++◌, map, ok, ◌≡◌, refl, ap, sym, ◌∙◌, positive, attempt, Bool-cases,
  inl, inr, ◌>>=◌, arith, some,
}
use mathlib.Core.List.{append-nil, append_assoc}
use spacetest.Spaces.{
  clone_newcgroup, clone_newipc, clone_newns, clone_newnet, clone_newtime, clone_newuts,
}
use spacetest.Kernel.{Kernel, State}
use spacetest.Kernel.Calls.{get_nstype}
use spacetest.Api.Rooms.{RoomsResponse, encode_fds, stow, decode_fd, decode_fds}
use spacetest.Api.Fds.Laws.{piece, left, carried, borrow_lem}

abbrev pub received : (ℤ → ℤ) → RoomsResponse → RoomsResponse
received renumber r = record {
  cgroup = carried renumber r.cgroup;
  ipc = carried renumber r.ipc;
  mnt = carried renumber r.mnt;
  net = carried renumber r.net;
  time = carried renumber r.time;
  uts = carried renumber r.uts;
}

pub encode_fds_lem :
    (r : RoomsResponse)
    → encode_fds r ≡ (
      piece r.cgroup
          ++ (piece r.ipc
              ++ (piece r.mnt ++ (piece r.net ++ (piece r.time ++ (piece r.uts ++ []))))),
      record {
        cgroup = left r.cgroup;
        ipc = left r.ipc;
        mnt = left r.mnt;
        net = left r.net;
        time = left r.time;
        uts = left r.uts;
      },
    )
unfolding encode_fds
encode_fds_lem r = simp (borrow_lem, append_assoc, append-nil)

module _ (k : Kernel) (s : State k) (renumber : ℤ → ℤ) where
  -- Each open descriptor arrives as one of a namespace of its field's type.
  pub record IsTyped (r : RoomsResponse) : Type 0 where
    pub cgroup :
        positive r.cgroup ≡ true → k.nstype (renumber r.cgroup) s.world ≡ ok clone_newcgroup
    pub ipc : positive r.ipc ≡ true → k.nstype (renumber r.ipc) s.world ≡ ok clone_newipc
    pub mnt : positive r.mnt ≡ true → k.nstype (renumber r.mnt) s.world ≡ ok clone_newns
    pub net : positive r.net ≡ true → k.nstype (renumber r.net) s.world ≡ ok clone_newnet
    pub time : positive r.time ≡ true → k.nstype (renumber r.time) s.world ≡ ok clone_newtime
    pub uts : positive r.uts ≡ true → k.nstype (renumber r.uts) s.world ≡ ok clone_newuts

  decode_fd_lem :
      (typ : ℕ) (fd : ℤ) (r r' : RoomsResponse)
      → k.nstype fd s.world ≡ ok typ
      → stow typ fd r ≡ some r'
      → decode_fd k fd r s ≡ (ok r', s)
  unfolding decode_fd get_nstype attempt ◌>>=◌
  decode_fd_lem typ fd r r' is stowed = ground arith

  pub decode_one :
      (typ : ℕ) (fd : ℤ) (rest : List ℤ) (r r' : RoomsResponse)
      → k.nstype fd s.world ≡ ok typ
      → stow typ fd r ≡ some r'
      → decode_fds k (fd ∷ rest) r s ≡ decode_fds k rest r' s
  unfolding decode_fds ◌>>=◌
  decode_one typ fd rest r r' is stowed = ground (arith, decode_fd_lem typ fd r r' is stowed)

  decode_piece :
      (typ : ℕ) (put : ℤ → RoomsResponse → RoomsResponse) (get : RoomsResponse → ℤ)
      → ((fd : ℤ) (r : RoomsResponse) → stow typ fd r ≡ some (put fd r))
      → ((r : RoomsResponse) → put (get r) r ≡ r)
      → (fd : ℤ) → (positive fd ≡ true → k.nstype (renumber fd) s.world ≡ ok typ)
      → (rest : List ℤ) (r : RoomsResponse) → get r ≡ left fd
      → decode_fds k (map renumber (piece fd ++ rest)) r s
        ≡ decode_fds k (map renumber rest) (put (carried renumber fd) r) s
  decode_piece typ put get puts same fd typed rest r gets = elim (Bool-cases (positive fd)) [
    | inl p ↦ rw p (decode_one typ (renumber fd) (map renumber rest) r _ (typed p) (puts _ r))
    | inr n ↦
        let e : get r ≡ fd = gets ∙ rw n in
        rw n (ap (λ t. decode_fds k (map renumber rest) t s) (sym (same r) ∙ ap (λ x. put x r) e))
  ]

  -- What was sent is what arrives: if every open descriptor of a rooms response arrives as one of a
  -- namespace of its field's type, then `DecodeFds`, given the descriptors of `EncodeFds` under the
  -- receiver's numbers and the response that `EncodeFds` left, restores each open field under its
  -- new number and leaves the others, with nothing closed.
  pub decode_fds-encode_fds :
      (r : RoomsResponse)
      → IsTyped r
      → decode_fds k (map renumber (encode_fds r).0) (encode_fds r).1 s
        ≡ (ok (received renumber r), s)
  unfolding stow
  decode_fds-encode_fds r typed = rw encode_fds_lem (
      decode_piece clone_newcgroup (λ fd t. record t { cgroup = fd }) (λ t. t.cgroup) (λ fd t. refl)
        (λ t. refl) r.cgroup typed.cgroup _ _ refl
      ∙ decode_piece clone_newipc (λ fd t. record t { ipc = fd }) (λ t. t.ipc) (λ fd t. refl)
          (λ t. refl) r.ipc typed.ipc _ _ refl
      ∙ decode_piece clone_newns (λ fd t. record t { mnt = fd }) (λ t. t.mnt) (λ fd t. refl)
          (λ t. refl) r.mnt typed.mnt _ _ refl
      ∙ decode_piece clone_newnet (λ fd t. record t { net = fd }) (λ t. t.net) (λ fd t. refl)
          (λ t. refl) r.net typed.net _ _ refl
      ∙ decode_piece clone_newtime (λ fd t. record t { time = fd }) (λ t. t.time) (λ fd t. refl)
          (λ t. refl) r.time typed.time _ _ refl
      ∙ decode_piece clone_newuts (λ fd t. record t { uts = fd }) (λ t. t.uts) (λ fd t. refl)
          (λ t. refl) r.uts typed.uts [] _ refl
      ∙ unfold decode_fds in refl)
