-- ===== src/Api/Subspace/Transfer.antt =====
-- A subspace response sent and received. Its first two descriptors are told by their place, the
-- others by the type of their namespace.
use spacetest.Base.{
  ℕ, ℤ, true, List, [], ◌∷◌, ◌++◌, map, ok, some, ◌≡◌, refl, ap, sym, ◌∙◌, positive, attempt,
  Bool-cases, inl, inr, ◌>>=◌, arith,
}
use mathlib.Core.List.{append-nil, append_assoc}
use spacetest.Spaces.{clone_newuser, clone_newpid}
use spacetest.Kernel.{Kernel, State}
use spacetest.Kernel.Calls.{get_nstype}
use spacetest.Api.Fds.Laws.{piece, left, carried, borrow_lem}
use spacetest.Api.Subspace.{
  Subspaces, SubspaceResponse, encode_fds, stow, decode_spaces, decode_fds,
}

pub encode_fds_lem :
    (r : SubspaceResponse)
    → encode_fds r ≡ (
      piece r.conn ++ (piece r.pid_fd ++ (piece r.user ++ (piece r.pid ++ []))),
      record {
        conn = left r.conn;
        pid_fd = left r.pid_fd;
        subspaces = record { user = left r.user; pid = left r.pid };
      },
    )
unfolding encode_fds
encode_fds_lem r = simp (borrow_lem, append_assoc, append-nil)

module _ (k : Kernel) (s : State k) (renumber : ℤ → ℤ) where
  decode_one :
      (typ : ℕ) (fd : ℤ) (rest : List ℤ) (r r' : Subspaces)
      → k.nstype fd s.world ≡ ok typ
      → stow typ fd r ≡ some r'
      → decode_spaces k (fd ∷ rest) r s ≡ decode_spaces k rest r' s
  unfolding decode_spaces get_nstype attempt ◌>>=◌
  decode_one typ fd rest r r' is stowed = ground (arith)

  decode_piece :
      (typ : ℕ) (put : ℤ → Subspaces → Subspaces) (get : Subspaces → ℤ)
      → ((fd : ℤ) (r : Subspaces) → stow typ fd r ≡ some (put fd r))
      → ((r : Subspaces) → put (get r) r ≡ r)
      → (fd : ℤ) → (positive fd ≡ true → k.nstype (renumber fd) s.world ≡ ok typ)
      → (rest : List ℤ) (r : Subspaces) → get r ≡ left fd
      → decode_spaces k (map renumber (piece fd ++ rest)) r s
        ≡ decode_spaces k (map renumber rest) (put (carried renumber fd) r) s
  decode_piece typ put get puts same fd typed rest r gets = elim (Bool-cases (positive fd)) [
    | inl p ↦ rw p (decode_one typ (renumber fd) (map renumber rest) r _ (typed p) (puts _ r))
    | inr n ↦
        let e : get r ≡ fd = gets ∙ rw n in
        rw n
          (ap (λ t. decode_spaces k (map renumber rest) t s) (sym (same r) ∙ ap (λ x. put x r) e))
  ]

  spaces_lem :
      (spaces : Subspaces)
      → (positive spaces.user ≡ true → k.nstype (renumber spaces.user) s.world ≡ ok clone_newuser)
      → (positive spaces.pid ≡ true → k.nstype (renumber spaces.pid) s.world ≡ ok clone_newpid)
      → decode_spaces k
          (map renumber (piece spaces.user ++ (piece spaces.pid ++ [])))
          (record { user = left spaces.user; pid = left spaces.pid })
          s
        ≡ (
          ok (record { user = carried renumber spaces.user; pid = carried renumber spaces.pid }),
          s,
        )
  unfolding stow
  spaces_lem spaces user pid =
      decode_piece clone_newuser (λ fd t. record t { user = fd }) (λ t. t.user) (λ fd t. refl)
        (λ t. refl) spaces.user user _ _ refl
      ∙ decode_piece clone_newpid (λ fd t. record t { pid = fd }) (λ t. t.pid) (λ fd t. refl)
          (λ t. refl) spaces.pid pid [] _ refl
      ∙ unfold decode_spaces in refl

  decode_pair :
      (conn pid_fd : ℤ) (fds : List ℤ) (r : SubspaceResponse) (spaces : Subspaces)
      → decode_spaces k fds r.subspaces s ≡ (ok spaces, s)
      → decode_fds k (conn ∷ pid_fd ∷ fds) r s
        ≡ (ok (record { conn = conn; pid_fd = pid_fd; subspaces = spaces }), s)
  unfolding decode_fds ◌>>=◌
  decode_pair conn pid_fd fds r spaces h = rw (h, decode_fds, ◌>>=◌) (rw h)

  -- What was sent is what arrives: if the connection and the PID descriptor of a subspace response
  -- are open, and the user and PID namespace descriptors, where open, arrive as ones of such a
  -- namespace, then `DecodeFds`, given the descriptors of `EncodeFds` under the receiver's numbers
  -- and the response that `EncodeFds` left, restores every open field under its new number and
  -- leaves the others, with nothing closed.
  pub decode_fds-encode_fds_subspace :
      (r : SubspaceResponse)
      → positive r.conn ≡ true
      → positive r.pid_fd ≡ true
      → (positive r.user ≡ true → k.nstype (renumber r.user) s.world ≡ ok clone_newuser)
      → (positive r.pid ≡ true → k.nstype (renumber r.pid) s.world ≡ ok clone_newpid)
      → decode_fds k (map renumber (encode_fds r).0) (encode_fds r).1 s ≡ (
        ok (record {
          conn = renumber r.conn;
          pid_fd = renumber r.pid_fd;
          subspaces = record { user = carried renumber r.user; pid = carried renumber r.pid };
        }),
        s,
      )
  decode_fds-encode_fds_subspace r conn pid_fd user pid =
      rw encode_fds_lem
        (rw (conn, pid_fd) (decode_pair _ _ _ _ _ (spaces_lem r.subspaces user pid)))
