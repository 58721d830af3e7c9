-- ===== src/Tests/Toy.antt =====
-- A small kernel that meets the laws: descriptors and namespaces are numbered in turn, and
-- unshare(2) fails for one type.
use spacetest.Base.{
  ℕ, suc, ◌+◌, ℤ, pos, negsuc, String, Bool, true, false, ◌&&◌, Option, none, some, List, [], ◌∷◌,
  Outcome, ok, err, ◌≡◌, refl, fun_ext, ltb, ◌==◌, ◌==ℤ◌, str_eq, if◌then◌else◌, arith, Bool-cases,
  inl, inr, sym, subst, ap, ◌∙◌, ◌||◌, ◌⊎◌, ◌≢◌, bit_or,
}
use spacetest.Spaces.{
  clone_newcgroup, clone_newipc, clone_newns, clone_newnet, clone_newuts, clone_newpid,
  clone_newtime, clone_newuser, clone_fs, name,
}
use spacetest.Kernel.{Kernel}
use spacetest.Kernel.Calls.{self_path}
use spacetest.Kernel.Laws.{
  IsLinux, put, moves_thread, stays_thread, shown, with_fd, without_fd, Opened, Entered, Unshared,
  moves_thread_all, OpenedPair, stays_thread-cases,
}

pub record ToyWorld : Type 0 where
  pub next_fd : ℕ
  pub is_open : ℕ → Bool
  pub reference : ℕ → ℕ × ℕ
  pub spaces : ℕ → ℕ → ℕ
  pub next_space : ℕ
  pub next_thread : ℕ
  pub broken : ℕ

abbrev toy_fds : ToyWorld → ℤ → Bool
toy_fds w (pos n) = ltb n w.next_fd && w.is_open n
toy_fds w (negsuc n) = false

-- a namespace that was not made yet reads as the first one
abbrev known : ℕ → ℕ → ℕ
known n x = if ltb n x then 0 else x

abbrev toy_attached : ToyWorld → ℕ → ℕ → ℕ
toy_attached w t typ = known w.next_space (w.spaces t typ)

abbrev reference_of : ToyWorld → ℕ → ℕ × ℕ
reference_of w n = ((w.reference n).0, known w.next_space (w.reference n).1)

abbrev toy_refers : ToyWorld → ℤ → ℕ × ℕ
toy_refers w (pos n) = reference_of w n
toy_refers w (negsuc n) = (0, 0)

-- the type whose path is given
unfoldable pub type_of_path : List ℕ → String → Option ℕ
type_of_path [] p = none
type_of_path (typ ∷ types) p = if str_eq p (self_path typ) then some typ else type_of_path types p

abbrev toy_types : List ℕ
toy_types =
    clone_newcgroup ∷ clone_newipc ∷ clone_newns ∷ clone_newnet ∷ clone_newuts ∷ clone_newpid
    ∷ clone_newtime ∷ clone_newuser ∷ []

abbrev open_space : ℕ → ToyWorld → Option ℕ → Outcome ℤ × ToyWorld
open_space t w none = (err "no such file or directory", w)
open_space t w (some typ) = (
  ok (pos w.next_fd),
  record w {
    next_fd = w.next_fd + 1;
    is_open = λ n. if n == w.next_fd then true else w.is_open n;
    reference = λ n. if n == w.next_fd then (typ, toy_attached w t typ) else w.reference n;
  },
)

unfoldable pub toy_open : ℕ → String → ToyWorld → Outcome ℤ × ToyWorld
unfolding type_of_path
toy_open t p w = open_space t w (type_of_path toy_types p)

abbrev toy_close : ℤ → ToyWorld → ToyWorld
toy_close fd w = record w { is_open = λ n. if pos n ==ℤ fd then false else w.is_open n }

abbrev attach : ℕ → ℕ → ℕ → (ℕ → ℕ → ℕ) → ℕ → ℕ → ℕ
attach t typ ns a t' = if t' == t then put typ ns (a t') else a t'

-- the namespaces of threads after thread `t` entered one: it has its own PID and time namespaces for
-- good
abbrev enter : ℕ → ℕ × ℕ → (ℕ → ℕ → ℕ) → ℕ → ℕ → ℕ
enter t (typ, ns) a = if stays_thread typ then a else attach t typ ns a

abbrev toy_setns : ℕ → ℤ → ℕ → ToyWorld → Outcome (Unit {0}) × ToyWorld
toy_setns t fd typ w =
    if toy_fds w fd
    then (ok tt, record w { spaces = enter t (toy_refers w fd) w.spaces })
    else (err "bad file descriptor", w)

abbrev fs_newns : ℕ
fs_newns = 0x2_0200

-- the type of which flags of unshare(2) give the thread a new namespace
abbrev unshared_type : ℕ → ℕ
unshared_type flags = if flags == fs_newns then clone_newns else flags

abbrev toy_unshare : ℕ → ℕ → ToyWorld → Outcome (Unit {0}) × ToyWorld
toy_unshare t flags w = if flags == w.broken then (err "operation not permitted", w) else (
  ok tt,
  record w {
    next_space = suc w.next_space;
    spaces =
        if flags == clone_newtime || flags == clone_fs
        then toy_attached w
        else attach t (unshared_type flags) (suc w.next_space) (toy_attached w);
    reference = reference_of w;
  },
)

abbrev toy_nstype : ℤ → ToyWorld → Outcome ℕ
toy_nstype fd w = if toy_fds w fd then ok (toy_refers w fd).0 else err "bad file descriptor"

-- a descriptor that references no namespace
abbrev open_other : ToyWorld → Outcome ℤ × ToyWorld
open_other w = (
  ok (pos w.next_fd),
  record w { next_fd = w.next_fd + 1; is_open = λ n. if n == w.next_fd then true else w.is_open n },
)

abbrev open_two : ToyWorld → Outcome (ℤ × ℤ) × ToyWorld
open_two w =
    if w.broken == 1
    then (err "too many open files", w)
    else (ok (pos w.next_fd, pos (w.next_fd + 1)), (open_other (open_other w).1).1)

abbrev pub stat_space : ℕ → ToyWorld → Option ℕ → Outcome ℕ
stat_space t w none = err "no such file or directory"
stat_space t w (some typ) = ok (toy_attached w t typ)

unfoldable pub toy_stat : ℕ → String → ToyWorld → Outcome ℕ
unfolding type_of_path
toy_stat t p w = stat_space t w (type_of_path toy_types p)

abbrev pub toy : Kernel
toy = record {
  World = ToyWorld;
  open_path = toy_open;
  close_fd = toy_close;
  setns = toy_setns;
  unshare = toy_unshare;
  mount = λ t a b c flags w. (ok tt, w);
  nstype = toy_nstype;
  fstat = λ fd w. if toy_fds w fd then ok (toy_refers w fd).1 else err "bad file descriptor";
  stat = toy_stat;
  spawn = λ t locked w. (w.next_thread + suc t, record w { next_thread = suc w.next_thread });
  socketpair = open_two;
  file_conn = λ fd. open_other;
  is_unix = λ fd w. true;
  dup = λ fd. open_other;
  pidfd_open = λ pid. open_other;
  start = λ t path flags mapped stdout stderr fd w. (ok (77, pos w.next_fd ∷ []), (open_other w).1);
  fds = toy_fds;
  attached = toy_attached;
  refers = toy_refers;
}

known-known : (n x : ℕ) → known n (known n x) ≡ known n x
known-known n x = ground arith

known-suc : (n x : ℕ) → known (suc n) (known n x) ≡ known n x
known-suc n x = ground arith

open_fds : (t : ℕ) (w : ToyWorld) (o : Option ℕ) → Opened toy w (open_space t w o)
open_fds t w none = refl
open_fds t w (some typ) = (
  refl,
  ground arith,
  fun_ext λ j.
      elim j
        as (λ j. toy_fds (open_space t w (some typ)).1 j ≡ with_fd (pos w.next_fd) (toy_fds w) j) [
          | pos n ↦ ground arith
          | negsuc n ↦ refl
        ],
)

close_fds :
    (fd : ℤ) (w : ToyWorld) (j : ℤ) → toy_fds (toy_close fd w) j ≡ without_fd fd (toy_fds w) j
close_fds fd w (pos n) = ground arith
close_fds fd w (negsuc n) = ground arith

open_space_refers :
    (t : ℕ) (w : ToyWorld) (o : Option ℕ) (j : ℤ)
    → toy_fds w j ≡ true
    → toy_refers (open_space t w o).1 j ≡ toy_refers w j
open_space_refers t w none j h = refl
open_space_refers t w (some typ) (pos n) h = ground arith
open_space_refers t w (some typ) (negsuc n) h = refl

type_of_self :
    (typ : ℕ) → moves_thread typ ≡ true → type_of_path toy_types (self_path typ) ≡ some typ
unfolding type_of_path name
type_of_self =
    moves_thread_all (λ typ. type_of_path toy_types (self_path typ) ≡ some typ) refl refl refl refl
      refl

type_of_still :
    (typ : ℕ) → stays_thread typ ≡ true → type_of_path toy_types (self_path typ) ≡ some typ
unfolding type_of_path name
type_of_still typ s = elim (stays_thread-cases typ s) [
  | inl p ↦ subst (λ x. type_of_path toy_types (self_path x) ≡ some x) (sym p) refl
  | inr p ↦ subst (λ x. type_of_path toy_types (self_path x) ≡ some x) (sym p) refl
]

type_of_shown : (typ : ℕ) → shown typ ≡ true → type_of_path toy_types (self_path typ) ≡ some typ
type_of_shown typ s = elim (Bool-cases (moves_thread typ)) [
  | inl moves ↦ type_of_self typ moves
  | inr stays ↦ type_of_still typ (ground arith)
]

stat_shown :
    (t typ : ℕ) (w : ToyWorld) (ino : ℕ)
    → shown typ ≡ true
    → toy_stat t (self_path typ) w ≡ ok ino
    → toy_attached w t typ ≡ ino
unfolding toy_stat
stat_shown t typ w ino s e =
    let is : ok (toy_attached w t typ) ≡ ok ino =
      sym (ap (stat_space t w) (type_of_shown typ s)) ∙ e in
    cc

open_space_self :
    (t : ℕ) (w : ToyWorld) (typ : ℕ) (fd : ℤ)
    → (open_space t w (some typ)).0 ≡ ok fd
    → toy_refers (open_space t w (some typ)).1 fd ≡ (typ, toy_attached w t typ)
open_space_self t w typ (pos n) h = ground (arith, known-known w.next_space (w.spaces t typ))
open_space_self t w typ (negsuc n) h = cc

open_space_attached :
    (t : ℕ) (w : ToyWorld) (o : Option ℕ) → toy_attached (open_space t w o).1 ≡ toy_attached w
open_space_attached t w none = refl
open_space_attached t w (some typ) = refl

refers_known :
    (w : ToyWorld) (fd : ℤ) → known w.next_space (toy_refers w fd).1 ≡ (toy_refers w fd).1
refers_known w (pos n) = known-known w.next_space _
refers_known w (negsuc n) = ground arith

setns-Entered :
    (t : ℕ) (fd : ℤ) (typ : ℕ) (w : ToyWorld) → Entered toy t fd w (toy_setns t fd typ w)
setns-Entered t fd typ w = elim (Bool-cases (toy_fds w fd)) [
  | inl opened ↦ rw opened (λ m. fun_ext λ x. ground (arith, refers_known w fd))
  | inr closed ↦ rw closed refl
]

setns_apart :
    (t : ℕ) (fd : ℤ) (typ : ℕ) (w : ToyWorld) (t' : ℕ)
    → (t' ≢ t) ⊎ (stays_thread (toy_refers w fd).0 ≡ true)
    → toy_attached (toy_setns t fd typ w).1 t' ≡ toy_attached w t'
setns_apart t fd typ w t' h = fun_ext λ x. ground arith

unshare-Unshared :
    (t typ flags : ℕ) (w : ToyWorld)
    → (flags == clone_newtime || flags == clone_fs) ≡ false
    → unshared_type flags ≡ typ
    → Unshared toy t typ w (toy_unshare t flags w)
unshare-Unshared t typ flags w moves is = elim (Bool-cases (flags == w.broken)) [
  | inl fails ↦ rw fails refl
  | inr works ↦ rw works (
    suc w.next_space,
    λ t'. ground arith,
    fun_ext λ x. ground (arith, known-suc w.next_space (w.spaces t x)),
  )
]

unshare_apart :
    (t flags : ℕ) (w : ToyWorld) (t' : ℕ)
    → (t' ≢ t) ⊎ ((flags == clone_newtime || flags == clone_fs) ≡ true)
    → toy_attached (toy_unshare t flags w).1 t' ≡ toy_attached w t'
unshare_apart t flags w t' h = fun_ext λ x. ground (arith, known-suc w.next_space (w.spaces t' x))

unshare_reference :
    (t flags : ℕ) (w : ToyWorld) (j : ℤ) → toy_refers (toy_unshare t flags w).1 j ≡ toy_refers w j
unshare_reference t flags w (pos n) =
    ground
      (arith, known-known w.next_space (w.reference n).1, known-suc w.next_space (w.reference n).1)
unshare_reference t flags w (negsuc n) = refl

setns_reference :
    (t : ℕ) (fd : ℤ) (typ : ℕ) (w : ToyWorld) (j : ℤ)
    → toy_refers (toy_setns t fd typ w).1 j ≡ toy_refers w j
setns_reference t fd typ w (pos n) = ground arith
setns_reference t fd typ w (negsuc n) = refl

other_fds :
    (w : ToyWorld) (j : ℤ) → toy_fds (open_other w).1 j ≡ with_fd (pos w.next_fd) (toy_fds w) j
other_fds w (pos n) = ground arith
other_fds w (negsuc n) = refl

two_fds :
    (w : ToyWorld) (j : ℤ)
    → toy_fds (open_other (open_other w).1).1 j
      ≡ with_fd (pos (w.next_fd + 1)) (with_fd (pos w.next_fd) (toy_fds w)) j
two_fds w (pos n) = ground arith
two_fds w (negsuc n) = refl

two-OpenedPair : (w : ToyWorld) → OpenedPair toy w (open_two w)
two-OpenedPair w = elim (Bool-cases (w.broken == 1)) [
  | inl fails ↦ rw fails refl
  | inr works ↦ rw works (refl, refl, ground arith, ground arith, fun_ext (two_fds w))
]

pub toy-IsLinux : IsLinux toy
unfolding toy_open
toy-IsLinux = record {
  open_law = λ t p w. open_fds t w (type_of_path toy_types p);
  close_law = λ fd w. fun_ext (close_fds fd w);
  setns_fds = λ t fd typ w. ground arith;
  unshare_fds = λ t flags w. ground arith;
  mount_fds = λ t a b c flags w. refl;
  spawn_fds = λ t locked w. refl;
  socketpair_law = two-OpenedPair;
  file_conn_law = λ fd w. (refl, ground arith, fun_ext (other_fds w));
  dup_law = λ fd w. (refl, ground arith, fun_ext (other_fds w));
  pidfd_open_law = λ pid w. (refl, ground arith, fun_ext (other_fds w));
  start_law = λ t path flags mapped stdout stderr fd w.
      ((ground arith, tt), fun_ext λ j. other_fds w j ∙ ground arith);
  open_refers = λ t p w. open_space_refers t w (type_of_path toy_types p);
  open_self = λ t typ w fd m. rw (type_of_self typ m) (open_space_self t w typ fd);
  close_refers = λ fd w j h. refl;
  setns_refers = λ t fd typ w. fun_ext (setns_reference t fd typ w);
  nstype_law = λ fd w typ h. ground arith;
  open_attached = λ t p w. open_space_attached t w (type_of_path toy_types p);
  close_attached = λ fd w. refl;
  setns_law = setns-Entered;
  unshare_law = λ t typ w m. unshare-Unshared t typ typ w (ground arith) (ground arith);
  setns_others = λ t fd typ w t' h. setns_apart t fd typ w t' (inl h);
  setns_still = λ t fd typ w h. setns_apart t fd typ w t (inr h);
  unshare_others = λ t flags w t' h. unshare_apart t flags w t' (inl h);
  unshare_time = λ t w. unshare_apart t clone_newtime w t (inr refl);
  unshare_fs = λ t w. unshare_apart t clone_fs w t (inr refl);
  unshare_fs_newns =
      λ t w. unshare-Unshared t clone_newns (bit_or clone_fs clone_newns) w refl refl;
  open_still = λ t typ w fd s. rw (type_of_still typ s) (open_space_self t w typ fd);
  fstat_law = λ fd w typ ino h e. ground arith;
  stat_law = stat_shown;
  spawn_other = λ t w. λ e. absurd (omega arith);
  mount_attached = λ t a b c flags w. refl;
  mount_refers = λ t a b c flags w. refl;
  spawn_attached = λ t locked w. refl;
  spawn_refers = λ t locked w. refl;
  unshare_refers = λ t flags w. fun_ext (unshare_reference t flags w);
}
