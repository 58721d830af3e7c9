-- ===== src/Service/Room/Steps.antt =====
-- The steps of `Room`, one for each field of the response.
use spacetest.Base.{ℕ, ℤ, pos, str_eq, true, false, ◌||◌, ◌==◌, ◌≡◌, refl, sym, ap, ◌∙◌}
use spacetest.Base.Post.{Post, mono, bind-Post}
use spacetest.Spaces.{
  clone_newcgroup, clone_newipc, clone_newns, clone_newnet, clone_newtime, clone_newuts,
}
use spacetest.Kernel.{Kernel, State}
use spacetest.Kernel.Laws.{IsLinux, moves_thread}
use spacetest.Kernel.Place.{place_of-Stands, Stands-everyone}
use spacetest.Api.Rooms.{RoomsResponse, no_rooms}
use spacetest.Service.NewNamespace.Makes.{New, Own, new_namespace-New, new_namespace-Own}
use spacetest.Service.Room.{Progress, unshare_room, unshare_rooms}
use spacetest.Service.Room.Fills.{
  Stay, look, Origin, Unused, InUse, Later, Field, Filled, Filled-Later, settles_of,
  unshare_room-Filled,
}

-- What a rooms response holds for a request, by the namespaces of all threads at the call.
pub record IsComplete (k : Kernel) (all : ℕ → ℕ → ℕ) (spaces : ℕ) (r : RoomsResponse) (w : k.World)
    : Type 0 where
  pub cgroup : Filled k all clone_newcgroup (Unused clone_newcgroup) spaces r.cgroup w
  pub ipc : Filled k all clone_newipc (Unused clone_newipc) spaces r.ipc w
  pub mnt : Filled k all clone_newns (Unused clone_newns) spaces r.mnt w
  pub net : Filled k all clone_newnet (Unused clone_newnet) spaces r.net w
  pub time : Filled k all clone_newtime (InUse clone_newtime) spaces r.time w
  pub uts : Filled k all clone_newuts (Unused clone_newuts) spaces r.uts w

module _ {k : Kernel} (linux : IsLinux k) where
  -- a field for a type into whose namespaces a thread can move
  moving_field :
      (typ : ℕ) (put : ℤ → RoomsResponse → RoomsResponse) (get : RoomsResponse → ℤ)
      → moves_thread typ ≡ true
      → ((fd : ℤ) (r : RoomsResponse) → get (put fd r) ≡ fd)
      → Field k
  moving_field typ put get moves get-put = record {
    typ = typ;
    from = Unused typ;
    from_same = λ a b ns same unused t e. unused t (same t ∙ e);
    settles =
        settles_of typ (New typ) (Unused typ)
          (λ s ns new t e.
            new t (ap (λ a. a typ) (sym (Stands-everyone _ s (place_of-Stands k s) t)) ∙ e))
          linux (λ s. new_namespace-New linux s typ moves);
    put = put;
    get = get;
    get-put = get-put;
  }

  time_field : Field k
  time_field = record {
    typ = clone_newtime;
    from = InUse clone_newtime;
    from_same = λ a b ns same (t, e). (t, e ∙ same t);
    settles =
        settles_of clone_newtime (Own clone_newtime) (InUse clone_newtime) (λ s ns e. (s.thread, e))
          linux (new_namespace-Own linux);
    put = λ fd r. record r { time = fd };
    get = λ r. r.time;
    get-put = λ fd r. refl;
  }

  module _ (spaces : ℕ) (all : ℕ → ℕ → ℕ) where
    -- a field that is filled, and one that was not reached
    abbrev F : ℕ → Origin → ℤ → k.World → Type 0
    F typ from fd w = Filled k all typ from spaces fd w

    grow :
        (typ : ℕ) (from : Origin) (fd : ℤ) (made : ℕ) (w w' : k.World)
        → Later k made (look k w) w'
        → F typ from fd w
        → F typ from fd w'
    grow typ from fd made w w' = Filled-Later k all typ from spaces fd made w w'

    abbrev E₁ : RoomsResponse → k.World → Type 0
    E₁ r w =
        (r.ipc ≡ pos 0) × (r.mnt ≡ pos 0) × (r.net ≡ pos 0) × (r.time ≡ pos 0) × (r.uts ≡ pos 0)

    abbrev E₂ : RoomsResponse → k.World → Type 0
    E₂ r w =
        F clone_newcgroup (Unused clone_newcgroup) r.cgroup w
        × (r.mnt ≡ pos 0)
        × (r.net ≡ pos 0)
        × (r.time ≡ pos 0)
        × (r.uts ≡ pos 0)

    abbrev E₃ : RoomsResponse → k.World → Type 0
    E₃ r w =
        F clone_newcgroup (Unused clone_newcgroup) r.cgroup w
        × F clone_newipc (Unused clone_newipc) r.ipc w
        × (r.net ≡ pos 0)
        × (r.time ≡ pos 0)
        × (r.uts ≡ pos 0)

    abbrev E₄ : RoomsResponse → k.World → Type 0
    E₄ r w =
        F clone_newcgroup (Unused clone_newcgroup) r.cgroup w
        × F clone_newipc (Unused clone_newipc) r.ipc w
        × F clone_newns (Unused clone_newns) r.mnt w
        × (r.time ≡ pos 0)
        × (r.uts ≡ pos 0)

    abbrev E₅ : RoomsResponse → k.World → Type 0
    E₅ r w =
        F clone_newcgroup (Unused clone_newcgroup) r.cgroup w
        × F clone_newipc (Unused clone_newipc) r.ipc w
        × F clone_newns (Unused clone_newns) r.mnt w
        × F clone_newnet (Unused clone_newnet) r.net w
        × (r.uts ≡ pos 0)

    abbrev E₆ : RoomsResponse → k.World → Type 0
    E₆ r w =
        F clone_newcgroup (Unused clone_newcgroup) r.cgroup w
        × F clone_newipc (Unused clone_newipc) r.ipc w
        × F clone_newns (Unused clone_newns) r.mnt w
        × F clone_newnet (Unused clone_newnet) r.net w
        × F clone_newtime (InUse clone_newtime) r.time w

    -- after the step for the field `cgroup`
    abbrev After1 : Progress → State k → Type 0
    After1 (r, msg) s =
        Stay k all (λ x. x == clone_newcgroup || false) s.world
        × (str_eq msg "" ≡ true
            → E₁ r s.world × F clone_newcgroup (Unused clone_newcgroup) r.cgroup s.world)

    cgroup_step :
        (s : State k)
        → k.attached s.world ≡ all
        → Post After1
            (λ _. ⊥)
            (unshare_room k spaces clone_newcgroup
              (λ fd r. record r { cgroup = fd })
              (no_rooms, "")
              s)
    unfolding moving_field
    cgroup_step s same =
        unshare_room-Filled spaces all
          (moving_field clone_newcgroup (λ fd r. record r { cgroup = fd }) (λ r. r.cgroup) refl
            (λ fd r. refl))
          (λ x. false) E₁ refl (λ fd r w e. e)
          (λ r typ w w' l (a0, a1, a2, a3, a4). (a0, a1, a2, a3, a4)) (no_rooms, "") s
          ((λ t x n. ap (λ a. a t x) same), (λ _. ((refl, refl, refl, refl, refl), refl)))

    -- after the step for the field `ipc`
    abbrev After2 : Progress → State k → Type 0
    After2 (r, msg) s =
        Stay k all (λ x. x == clone_newipc || (x == clone_newcgroup || false)) s.world
        × (str_eq msg "" ≡ true → E₂ r s.world × F clone_newipc (Unused clone_newipc) r.ipc s.world)

    ipc_step :
        (p : Progress) (s : State k)
        → After1 p s
        → Post After2
            (λ _. ⊥)
            (unshare_room k spaces clone_newipc (λ fd r. record r { ipc = fd }) p s)
    unfolding moving_field
    ipc_step p s (stay, known) =
        unshare_room-Filled spaces all
          (moving_field clone_newipc (λ fd r. record r { ipc = fd }) (λ r. r.ipc) refl
            (λ fd r. refl))
          (λ x. x == clone_newcgroup || false) E₂ refl (λ fd r w e. e)
          (λ r typ w w' l (a0, a1, a2, a3, a4).
            (grow clone_newcgroup (Unused clone_newcgroup) r.cgroup typ w w' l a0, a1, a2, a3, a4))
          p s
          (
            stay,
            (λ m. (
              ((known m).1, (known m).0.1, (known m).0.2, (known m).0.3, (known m).0.4),
              (known m).0.0,
            )),
          )

    -- after the step for the field `mnt`
    abbrev After3 : Progress → State k → Type 0
    After3 (r, msg) s =
        Stay k all (λ x. x == clone_newns || (x == clone_newipc || (x == clone_newcgroup || false)))
          s.world
        × (str_eq msg "" ≡ true → E₃ r s.world × F clone_newns (Unused clone_newns) r.mnt s.world)

    mnt_step :
        (p : Progress) (s : State k)
        → After2 p s
        → Post After3
            (λ _. ⊥)
            (unshare_room k spaces clone_newns (λ fd r. record r { mnt = fd }) p s)
    unfolding moving_field
    mnt_step p s (stay, known) =
        unshare_room-Filled spaces all
          (moving_field clone_newns (λ fd r. record r { mnt = fd }) (λ r. r.mnt) refl
            (λ fd r. refl))
          (λ x. x == clone_newipc || (x == clone_newcgroup || false)) E₃ refl (λ fd r w e. e)
          (λ r typ w w' l (a0, a1, a2, a3, a4). (
            grow clone_newcgroup (Unused clone_newcgroup) r.cgroup typ w w' l a0,
            grow clone_newipc (Unused clone_newipc) r.ipc typ w w' l a1,
            a2,
            a3,
            a4,
          ))
          p s
          (
            stay,
            (λ m. (
              ((known m).0.0, (known m).1, (known m).0.2, (known m).0.3, (known m).0.4),
              (known m).0.1,
            )),
          )

    -- after the step for the field `net`
    abbrev After4 : Progress → State k → Type 0
    After4 (r, msg) s =
        Stay k all
          (λ x.
            x == clone_newnet
            || (x == clone_newns || (x == clone_newipc || (x == clone_newcgroup || false))))
          s.world
        × (str_eq msg "" ≡ true → E₄ r s.world × F clone_newnet (Unused clone_newnet) r.net s.world)

    net_step :
        (p : Progress) (s : State k)
        → After3 p s
        → Post After4
            (λ _. ⊥)
            (unshare_room k spaces clone_newnet (λ fd r. record r { net = fd }) p s)
    unfolding moving_field
    net_step p s (stay, known) =
        unshare_room-Filled spaces all
          (moving_field clone_newnet (λ fd r. record r { net = fd }) (λ r. r.net) refl
            (λ fd r. refl))
          (λ x. x == clone_newns || (x == clone_newipc || (x == clone_newcgroup || false))) E₄ refl
          (λ fd r w e. e)
          (λ r typ w w' l (a0, a1, a2, a3, a4). (
            grow clone_newcgroup (Unused clone_newcgroup) r.cgroup typ w w' l a0,
            grow clone_newipc (Unused clone_newipc) r.ipc typ w w' l a1,
            grow clone_newns (Unused clone_newns) r.mnt typ w w' l a2,
            a3,
            a4,
          ))
          p s
          (
            stay,
            (λ m. (
              ((known m).0.0, (known m).0.1, (known m).1, (known m).0.3, (known m).0.4),
              (known m).0.2,
            )),
          )

    -- after the step for the field `time`
    abbrev After5 : Progress → State k → Type 0
    After5 (r, msg) s =
        Stay k all
          (λ x.
            x == clone_newtime
            || (x == clone_newnet
                || (x == clone_newns || (x == clone_newipc || (x == clone_newcgroup || false)))))
          s.world
        × (str_eq msg "" ≡ true
            → E₅ r s.world × F clone_newtime (InUse clone_newtime) r.time s.world)

    time_step :
        (p : Progress) (s : State k)
        → After4 p s
        → Post After5
            (λ _. ⊥)
            (unshare_room k spaces clone_newtime (λ fd r. record r { time = fd }) p s)
    unfolding time_field
    time_step p s (stay, known) =
        unshare_room-Filled spaces all time_field
          (λ x.
            x == clone_newnet
            || (x == clone_newns || (x == clone_newipc || (x == clone_newcgroup || false))))
          E₅ refl (λ fd r w e. e)
          (λ r typ w w' l (a0, a1, a2, a3, a4). (
            grow clone_newcgroup (Unused clone_newcgroup) r.cgroup typ w w' l a0,
            grow clone_newipc (Unused clone_newipc) r.ipc typ w w' l a1,
            grow clone_newns (Unused clone_newns) r.mnt typ w w' l a2,
            grow clone_newnet (Unused clone_newnet) r.net typ w w' l a3,
            a4,
          ))
          p s
          (
            stay,
            (λ m. (
              ((known m).0.0, (known m).0.1, (known m).0.2, (known m).1, (known m).0.4),
              (known m).0.3,
            )),
          )

    -- after the step for the field `uts`
    abbrev After6 : Progress → State k → Type 0
    After6 (r, msg) s =
        Stay k all
          (λ x.
            x == clone_newuts
            || (x == clone_newtime
                || (x == clone_newnet
                    || (x == clone_newns
                        || (x == clone_newipc || (x == clone_newcgroup || false))))))
          s.world
        × (str_eq msg "" ≡ true → E₆ r s.world × F clone_newuts (Unused clone_newuts) r.uts s.world)

    uts_step :
        (p : Progress) (s : State k)
        → After5 p s
        → Post After6
            (λ _. ⊥)
            (unshare_room k spaces clone_newuts (λ fd r. record r { uts = fd }) p s)
    unfolding moving_field
    uts_step p s (stay, known) =
        unshare_room-Filled spaces all
          (moving_field clone_newuts (λ fd r. record r { uts = fd }) (λ r. r.uts) refl
            (λ fd r. refl))
          (λ x.
            x == clone_newtime
            || (x == clone_newnet
                || (x == clone_newns || (x == clone_newipc || (x == clone_newcgroup || false)))))
          E₆ refl (λ fd r w e. e)
          (λ r typ w w' l (a0, a1, a2, a3, a4). (
            grow clone_newcgroup (Unused clone_newcgroup) r.cgroup typ w w' l a0,
            grow clone_newipc (Unused clone_newipc) r.ipc typ w w' l a1,
            grow clone_newns (Unused clone_newns) r.mnt typ w w' l a2,
            grow clone_newnet (Unused clone_newnet) r.net typ w w' l a3,
            grow clone_newtime (InUse clone_newtime) r.time typ w w' l a4,
          ))
          p s
          (
            stay,
            (λ m. (
              ((known m).0.0, (known m).0.1, (known m).0.2, (known m).0.3, (known m).1),
              (known m).0.4,
            )),
          )

    pub unshare_rooms-Complete :
        (s : State k)
        → k.attached s.world ≡ all
        → Post
            (λ p s'. str_eq p.1 "" ≡ true → IsComplete k all spaces p.0 s'.world)
            (λ _. ⊥)
            (unshare_rooms k spaces s)
    unfolding unshare_rooms
    unshare_rooms-Complete s same = bind-Post _ _ _ (cgroup_step s same) λ p₁ s₁ h₁.
        bind-Post _ _ _ (ipc_step p₁ s₁ h₁) λ p₂ s₂ h₂.
          bind-Post _ _ _ (mnt_step p₂ s₂ h₂) λ p₃ s₃ h₃.
            bind-Post _ _ _ (net_step p₃ s₃ h₃) λ p₄ s₄ h₄.
              bind-Post _ _ _ (time_step p₄ s₄ h₄) λ p₅ s₅ h₅.
                mono (uts_step p₅ s₅ h₅)
                  (λ p s' (_, known) m. record {
                    cgroup = (known m).0.0;
                    ipc = (known m).0.1;
                    mnt = (known m).0.2;
                    net = (known m).0.3;
                    time = (known m).0.4;
                    uts = (known m).1;
                  })
                  (λ _ e. e)
