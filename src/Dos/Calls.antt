-- ===== src/Dos/Calls.antt =====
-- go/arch/x86_16/dos.go: the calls for files.
use usercorn.Base.{sym}
use usercorn.Base.{subst}
use usercorn.Dos.{set_flag_c}
use usercorn.Dos.{write_ax}
use usercorn.Base.{
  ℕ, ◌%◌, ◌<◌, ◌≡◌, refl, List, Option, none, some, ◌==◌, if◌then◌else◌, true, false, arith, Bool,
  Bool-cases, inl, inr,
}
use usercorn.Dos.{
  Dos, Host, lookup, delete, num_fds, get_fd, free_fd, opened, open_file, close, read, write,
  usercorn_read, refused_unless,
}
use usercorn.Dos.Fds.{Assigned, get_fd-Assigned, free_fd-some, lookup-delete}

-- A free number of the table.
abbrev pub Free : List (ℕ × ℕ) → ℕ → Type 0
Free fds i = (i < num_fds) × (lookup fds i ≡ none)

-- What a program sees of a call: the carry flag is clear, so that it takes the call for a success.
abbrev pub Succeeds : {S : Type 0} → Dos S → Type 0
Succeeds k = k.flags % 2 ≡ 0

module _ {S : Type 0} (os : Host S) where
  -- What `Close` after `openFile` leaves behind, for the descriptor `realfd` of the host.
  pub record Closed (k : Dos S) (s : S) (realfd : ℕ) (r : Dos S × ℕ) : Type 0 where
    pub in_ax : r.0.ax ≡ r.1
    pub no_carry : r.0.flags % 2 ≡ 0
    pub number : Free k.fds r.1
    pub entered : lookup (r.0.fds) r.1 ≡ some realfd
    pub closed : (close os r.0 r.1).host ≡ (os.close_file s realfd).0
    pub table : (j : ℕ) → lookup ((close os r.0 r.1).fds) j ≡ lookup k.fds j

  host-refused_unless : (b : Bool) (k : Dos S) → (refused_unless b k).host ≡ k.host
  host-refused_unless true k = refl
  host-refused_unless false k = refl

  fds-refused_unless : (b : Bool) (k : Dos S) → (refused_unless b k).fds ≡ k.fds
  fds-refused_unless true k = refl
  fds-refused_unless false k = refl

  host-close :
      (k : Dos S) (fd realfd : ℕ)
      → lookup k.fds fd ≡ some realfd
      → (close os k fd).host ≡ (os.close_file k.host realfd).0
  unfolding close
  host-close k fd realfd e =
      let (s, b) = os.close_file k.host realfd in
      rw (free_fd-some k.fds fd realfd e)
        (host-refused_unless b (record k { fds = delete fd k.fds; host = s }))

  fds-close :
      (k : Dos S) (fd realfd : ℕ)
      → lookup k.fds fd ≡ some realfd
      → (close os k fd).fds ≡ delete fd k.fds
  unfolding close
  fds-close k fd realfd e =
      let (s, b) = os.close_file k.host realfd in
      rw (free_fd-some k.fds fd realfd e)
        (fds-refused_unless b (record k { fds = delete fd k.fds; host = s }))

  undone :
      (fds fds' : List (ℕ × ℕ)) (i v j : ℕ)
      → lookup fds i ≡ none
      → ((k : ℕ) → lookup fds' k ≡ (if i == k then some v else lookup fds k))
      → lookup (delete i fds') j ≡ lookup fds j
  undone fds fds' i v j e h = elim (Bool-cases (i == j)) [
    | inl t ↦ let same : i ≡ j = ground arith in ground (arith, lookup-delete i j fds', e, same)
    | inr f ↦ ground (arith, lookup-delete i j fds', h j)
  ]

  opened-Closed :
      (k : Dos S) (s : S) (realfd : ℕ) (a : List (ℕ × ℕ) × Option ℕ)
      → get_fd k.fds realfd ≡ a
      → (i : ℕ) × Free k.fds i
      → Assigned k.fds realfd a
      → Closed k s realfd (opened os (record k { host = s }) (some realfd))
  opened-Closed k s realfd (fds', none) e (i, (b, f)) (same, all) =
      let (v, u) = all i b in absurd (cc)
  opened-Closed k s realfd (fds', some i) e h (b, f, u, l) =
      let own : lookup fds' i ≡ some realfd = ground (arith, l i) in
      let k' = write_ax i (set_flag_c false (record k { fds = fds'; host = s })) in
      let same : (opened os (record k { host = s }) (some realfd)) ≡ (k', i) = rw e refl in
      subst (Closed k s realfd) (sym same) record {
        in_ax = omega (arith, b);
        no_carry = omega arith;
        number = (b, f);
        entered = own;
        closed = host-close k' i realfd own;
        table = λ j. rw (fds-close k' i realfd own) (undone k.fds fds' i realfd j f l);
      }

  -- Where the host opens the file and the table has a free number, `openFile` returns the number of
  -- a free entry, also in AX and with the carry flag clear, under which the table has the
  -- descriptor of the host; and `Close` of that number closes that descriptor of the host, and the
  -- table is as before the two calls.
  pub close-open_file :
      (k : Dos S) (name : List ℕ) (mode : ℕ) (s : S) (realfd : ℕ)
      → os.open_file k.host name mode 0o666 ≡ (s, some realfd)
      → (i : ℕ) × Free k.fds i
      → Closed k s realfd (open_file os k name mode)
  unfolding open_file
  close-open_file k name mode s realfd e h =
      rw e (opened-Closed k s realfd (get_fd k.fds realfd) refl h (get_fd-Assigned k.fds realfd))

  -- For a number that the table does not have, `Close`, `Read` and `Write` clear the carry flag,
  -- whatever the host answers. `Close` closes the descriptor 0xFFFF of the host and sets AX to 0,
  -- `Read` reads from the descriptor of the host with that number, and `Write` writes to its
  -- descriptor 0.
  pub unknown_fd_lem :
      (prot_exec : ℕ) (k : Dos S) (fd buf n : ℕ)
      → lookup k.fds fd ≡ none
      → Succeeds (close os k fd)
        × ((close os k fd).ax ≡ 0)
        × ((close os k fd).host ≡ (os.close_file k.host 0xffff).0)
        × Succeeds ((read os k fd buf n).0)
        × ((read os k fd buf n).0.host ≡ (os.read_file k.host fd n).0)
        × Succeeds ((write os prot_exec k fd buf n).0)
        × ((write os prot_exec k fd buf n).0.host
            ≡ (os.write_file k.host 0 (usercorn_read prot_exec k.mem buf n)).0)
  unfolding close read write free_fd
  unknown_fd_lem prot_exec k fd buf n e =
      let sent = usercorn_read prot_exec k.mem buf n in
      rw e (
        omega arith,
        refl,
        host-refused_unless ((os.close_file k.host 0xffff).1)
            (record k { host = (os.close_file k.host 0xffff).0 }),
        omega arith,
        host-refused_unless ((os.read_file k.host fd n).1.success)
            (record k { host = (os.read_file k.host fd n).0 }),
        omega arith,
        host-refused_unless ((os.write_file k.host 0 sent).1.success)
            (record (refused_unless false k) { host = (os.write_file k.host 0 sent).0 }),
      )
