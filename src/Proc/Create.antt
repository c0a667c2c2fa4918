-- ===== src/Proc/Create.antt =====
-- `allocproc`, `fork` and `clone` of Xv6-Threads/src/proc.c. The caller is the slot `cur`. What a
-- function returns to the user is a 32-bit word, -1 on failure.
pub mod Made
pub mod Outcome
use os_wsl.Prelude.{
  ℕ, ◌+◌, true, false, Option, none, some, List, [], ◌∷◌, set, take, u32, minus_one,
}
use os_wsl.Proc.{
  Proc, Trapframe, zero_frame, embryo, unused, runnable, at_forkret, proc_at, find_unused,
}
use os_wsl.Proc.Services.{Services}

-- The globals of proc.c, and the state of the other parts of the kernel.
pub record Kernel (S : Type 0) : Type 0 where
  pub procs : List Proc
  pub nextpid : ℕ
  pub rng : ℕ
  pub initproc : ℕ
  pub env : S

abbrev pub put : {S : Type 0} → ℕ → Proc → Kernel S → Kernel S
put i p k = record k { procs = set k.procs i p }

-- The slot as `allocproc` leaves it under the lock.
unfoldable pub claim : Proc → ℕ → Proc
claim p pid = record p { state = embryo; tickets = 1; ticks = 0; isthread = false; pid = pid }

module _ (v : Services) where
  open v use {State, kalloc, kfree, copyuvm, filedup, idup, store}

  -- The rest of `allocproc`, with the kernel stack's page or without.
  unfoldable pub with_stack : ℕ → Option ℕ → Kernel State → Option ℕ × Kernel State
  with_stack i none k = (none, put i (record (proc_at k.procs i) { kstack = 0; state = unused }) k)
  with_stack i (some page) k =
      (some i, put i (record (proc_at k.procs i) { kstack = page; context = at_forkret }) k)

  unfoldable pub alloc_at : ℕ → Kernel State → Option ℕ × Kernel State
  unfolding claim with_stack
  alloc_at i k =
      let claimed = put i (claim (proc_at k.procs i) k.nextpid) k in
      let (page, env) = kalloc k.env in
      with_stack i page (record claimed { nextpid = u32 (k.nextpid + 1); env = env })

  unfoldable pub alloc_slot : Option ℕ → Kernel State → Option ℕ × Kernel State
  unfolding alloc_at
  alloc_slot none k = (none, k)
  alloc_slot (some i) k = alloc_at i k

  unfoldable pub allocproc : Kernel State → Option ℕ × Kernel State
  unfolding find_unused alloc_slot
  allocproc k = alloc_slot (find_unused k.procs) k

  -- The loop that copies the open files: a descriptor that is closed in the parent is left alone.
  unfoldable pub dup_files : List (Option ℕ) → List (Option ℕ) → State → List (Option ℕ) × State
  dup_files [] files s = (files, s)
  dup_files (none ∷ from) [] s = let (rest, s') = dup_files from [] s in (none ∷ rest, s')
  dup_files (none ∷ from) (f ∷ to) s = let (rest, s') = dup_files from to s in (f ∷ rest, s')
  dup_files (some f ∷ from) [] s =
      let (rest, s') = dup_files from [] (filedup f s) in (some f ∷ rest, s')
  dup_files (some f ∷ from) (_ ∷ to) s =
      let (rest, s') = dup_files from to (filedup f s) in (some f ∷ rest, s')

  unfoldable pub dup_cwd : Option ℕ → State → State
  dup_cwd none s = s
  dup_cwd (some ip) s = idup ip s

  -- What `fork` and `clone` do last: the files, the directory, the name, and RUNNABLE.
  unfoldable pub launch : Proc → ℕ → Proc → Kernel State → ℕ × Kernel State
  unfolding dup_files dup_cwd
  launch parent i np k =
      let (files, s) = dup_files parent.ofile np.ofile k.env in
      let child = record np {
        ofile = files;
        cwd = parent.cwd;
        name = take 15 parent.name;
        state = runnable;
      } in
      (np.pid, record (put i child k) { env = dup_cwd parent.cwd s })

  -- `fork` once it has its slot, by the outcome of `copyuvm`.
  unfoldable pub fork_into : ℕ → ℕ → Option ℕ → Kernel State → ℕ × Kernel State
  unfolding launch
  fork_into cur i none k =
      let np = proc_at k.procs i in
      (
        minus_one,
        record (put i (record np { pgdir = 0; kstack = 0; state = unused }) k) {
          env = kfree np.kstack k.env;
        },
      )
  fork_into cur i (some pgdir) k =
      let parent = proc_at k.procs cur in
      let np = record (proc_at k.procs i) {
        pgdir = pgdir;
        sz = parent.sz;
        parent = some cur;
        tickets = parent.tickets;
        tf = record (parent.tf) { eax = 0 };
      } in
      launch parent i np k

  unfoldable pub fork_slot : Option ℕ → ℕ → Kernel State → ℕ × Kernel State
  unfolding fork_into
  fork_slot none cur k = (minus_one, k)
  fork_slot (some i) cur k =
      let parent = proc_at k.procs cur in
      let (pgdir, env) = copyuvm parent.pgdir parent.sz k.env in
      fork_into cur i pgdir (record k { env = env })

  unfoldable pub fork : ℕ → Kernel State → ℕ × Kernel State
  unfolding allocproc fork_slot
  fork cur k = let (slot, k') = allocproc k in fork_slot slot cur k'

  -- `*--sp = w`
  abbrev pub below : ℕ → ℕ
  below sp = u32 (sp + 4294967292)

  -- The two arguments and the fake return address on the new user stack.
  unfoldable pub push_args : ℕ → ℕ → ℕ → ℕ → State → State
  push_args pgdir stack arg1 arg2 s =
      store pgdir (below (below (below stack))) 4294967295
        (store pgdir (below (below stack)) arg1 (store pgdir (below stack) arg2 s))

  unfoldable pub clone_into : ℕ → ℕ → ℕ → ℕ → ℕ → ℕ → Kernel State → ℕ × Kernel State
  unfolding launch push_args
  clone_into cur i fcn arg1 arg2 stack k =
      let parent = proc_at k.procs cur in
      let np = record (proc_at k.procs i) {
        pgdir = parent.pgdir;
        sz = parent.sz;
        parent = some cur;
        tf = record (parent.tf) { eax = 0; esp = below (below (below stack)); eip = fcn };
        isthread = true;
      } in
      launch parent i np (record k { env = push_args parent.pgdir stack arg1 arg2 k.env })

  unfoldable pub clone_slot : Option ℕ → ℕ → ℕ → ℕ → ℕ → ℕ → Kernel State → ℕ × Kernel State
  unfolding clone_into
  clone_slot none cur fcn arg1 arg2 stack k = (minus_one, k)
  clone_slot (some i) cur fcn arg1 arg2 stack k = clone_into cur i fcn arg1 arg2 stack k

  unfoldable pub clone : ℕ → ℕ → ℕ → ℕ → ℕ → Kernel State → ℕ × Kernel State
  unfolding allocproc clone_slot
  clone cur fcn arg1 arg2 stack k =
      let (slot, k') = allocproc k in clone_slot slot cur fcn arg1 arg2 stack k'

  -- The user registers of the first process, and its name.
  abbrev pub first_frame : Trapframe
  first_frame = record zero_frame {
    cs = 27;
    ds = 35;
    es = 35;
    ss = 35;
    eflags = 512;
    esp = 4096;
    eip = 0;
  }

  abbrev pub initcode : List ℕ
  initcode = b'i' ∷ b'n' ∷ b'i' ∷ b't' ∷ b'c' ∷ b'o' ∷ b'd' ∷ b'e' ∷ []

  unfoldable pub first_at : Option ℕ → ℕ → Option ℕ → Kernel State → Option (Kernel State)
  unfolding zero_frame
  first_at (some i) pgdir cwd k =
      let p = record (proc_at k.procs i) {
        pgdir = pgdir;
        sz = 4096;
        tf = first_frame;
        name = initcode;
        cwd = cwd;
        state = runnable;
      } in
      some (record (put i p k) { initproc = i })
  first_at none pgdir cwd k = none

  -- `userinit`, with the page table that `setupkvm` and `inituvm` make and the root directory;
  -- `none` is a panic, or the fault of a kernel with no first process.
  unfoldable pub userinit : Option ℕ → Option ℕ → Kernel State → Option (Kernel State)
  unfolding allocproc first_at
  userinit none cwd k = none
  userinit (some pgdir) cwd k = let (slot, k') = allocproc k in first_at slot pgdir cwd k'
