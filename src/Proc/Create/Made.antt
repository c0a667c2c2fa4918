-- ===== src/Proc/Create/Made.antt =====
-- What `fork` and `clone` of Xv6-Threads/src/proc.c leave behind, branch by branch.
use os_wsl.Prelude.{
  ℕ, ◌+◌, ◌<◌, ◌≡◌, true, false, Option, none, some, List, take, length, set, u32, minus_one, ◌==◌,
}
use os_wsl.Proc.{Proc, unused, runnable, at_forkret, proc_at, find_unused}
use os_wsl.Proc.Slots.{proc_at-set, proc_at-set_self, set-set, find_unused-some}
use os_wsl.Proc.Services.{Services}
use os_wsl.Proc.Create.{Kernel, claim, alloc_at, dup_files, dup_cwd, fork, push_args, clone, below}

module _ (v : Services) where
  open v use {State, kalloc, kfree, copyuvm}

  -- The slot of a new process, between `allocproc` and its caller.
  abbrev pub fresh : Kernel State → ℕ → ℕ → Proc
  fresh k i page = record (claim (proc_at k.procs i) k.nextpid) {
    kstack = page;
    context = at_forkret;
  }

  abbrev advance : Kernel State → List Proc → State → Kernel State
  advance k t s = record k { procs = t; nextpid = u32 (k.nextpid + 1); env = s }

  alloc_at-some :
      (k : Kernel State) (i page : ℕ) (s : State)
      → i < length k.procs
      → kalloc k.env ≡ (some page, s)
      → alloc_at v i k ≡ (some i, advance k (set k.procs i (fresh k i page)) s)
  unfolding alloc_at
  alloc_at-some k i page s h e = rw e (rw (proc_at-set_self, h) (rw set-set))

  alloc_at-none :
      (k : Kernel State) (i : ℕ) (s : State)
      → i < length k.procs
      → kalloc k.env ≡ (none, s)
      → alloc_at v i k ≡ (
        none,
        advance k
            (set k.procs i
              (record (claim (proc_at k.procs i) k.nextpid) { kstack = 0; state = unused }))
            s,
      )
  unfolding alloc_at
  alloc_at-none k i s h e = rw e (rw (proc_at-set_self, h) (rw set-set))

  -- What a new process inherits, whoever made it.
  abbrev pub child_of : Proc → List (Option ℕ) → Proc → Proc
  child_of parent files np = record np {
    state = runnable;
    ofile = files;
    cwd = parent.cwd;
    name = take 15 parent.name;
  }

  abbrev pub forked : ℕ → Proc → ℕ → Proc → Proc
  forked cur parent pgdir np = record np {
    pgdir = pgdir;
    sz = parent.sz;
    parent = some cur;
    tickets = parent.tickets;
    tf = record (parent.tf) { eax = 0 };
  }

  abbrev pub cloned : ℕ → Proc → ℕ → ℕ → Proc → Proc
  cloned cur parent fcn stack np = record np {
    pgdir = parent.pgdir;
    sz = parent.sz;
    parent = some cur;
    tf = record (parent.tf) { eax = 0; esp = below v (below v (below v stack)); eip = fcn };
    isthread = true;
  }

  -- The caller of `fork` is in use, so its slot is another one.
  module _ (cur i : ℕ) (k : Kernel State) (free : find_unused k.procs ≡ some i)
      (ne : (i == cur) ≡ false) where
    inside : i < length k.procs
    inside = (find_unused-some k.procs i free).0

    parent_kept : (p : Proc) → proc_at (set k.procs i p) cur ≡ proc_at k.procs cur
    parent_kept p = rw (proc_at-set, inside) (rw ne)

    -- A `fork` that gets a slot, a kernel stack and a copy of the address space returns the new pid and
    -- leaves a RUNNABLE child in the first free slot, which has the caller's size, tickets, registers
    -- (with 0 in eax), open files, directory and name, and the caller as its parent. (The caller's slot
    -- is not the free one.) It changes nothing else but `nextpid` and the state of the services.
    pub fork-eq :
        (page pgdir : ℕ) (s s' : State)
        → kalloc k.env ≡ (some page, s)
        → copyuvm (proc_at k.procs cur).pgdir (proc_at k.procs cur).sz s ≡ (some pgdir, s')
        → let parent = proc_at k.procs cur in
          let (files, s'') = dup_files v parent.ofile (proc_at k.procs i).ofile s' in
          fork v cur k ≡ (
            k.nextpid,
            advance k
                (set k.procs i (child_of parent files (forked cur parent pgdir (fresh k i page))))
                (dup_cwd v parent.cwd s''),
          )
    unfolding fork
    fork-eq page pgdir s s' e f = rw free (
        rw (alloc_at-some k i page s inside e) (
          rw (parent_kept (fresh k i page)) (
            rw f (rw (parent_kept (fresh k i page)) (rw (proc_at-set_self, inside) (rw set-set))))))

    -- A `clone` that gets a slot and a kernel stack returns the new pid and leaves a RUNNABLE thread in
    -- the first free slot, which has the caller's page table, size, registers (with 0 in eax, the
    -- function in eip, and in esp the given stack less three words), open files, directory and name,
    -- one ticket, and the caller as its parent. (The caller's slot is not the free one.) It changes
    -- nothing else but `nextpid` and the state of the services.
    pub clone-eq :
        (fcn arg1 arg2 stack page : ℕ) (s : State)
        → kalloc k.env ≡ (some page, s)
        → let parent = proc_at k.procs cur in
          let (files, s') =
            dup_files v parent.ofile
              (proc_at k.procs i).ofile
              (push_args v parent.pgdir stack arg1 arg2 s) in
          clone v cur fcn arg1 arg2 stack k ≡ (
            k.nextpid,
            advance k
                (set k.procs i
                  (child_of parent files (cloned cur parent fcn stack (fresh k i page))))
                (dup_cwd v parent.cwd s'),
          )
    unfolding clone
    clone-eq fcn arg1 arg2 stack page s e = rw free (
        rw (alloc_at-some k i page s inside e)
          (rw (parent_kept (fresh k i page)) (rw (proc_at-set_self, inside) (rw set-set))))

    -- No kernel stack: the slot is UNUSED again.
    pub fork_no_stack :
        (s : State)
        → kalloc k.env ≡ (none, s)
        → fork v cur k ≡ (
          minus_one,
          advance k
              (set k.procs i
                (record (claim (proc_at k.procs i) k.nextpid) { kstack = 0; state = unused }))
              s,
        )
    unfolding fork
    fork_no_stack s e = rw free (rw (alloc_at-none k i s inside e))

    pub clone_no_stack :
        (fcn arg1 arg2 stack : ℕ) (s : State)
        → kalloc k.env ≡ (none, s)
        → clone v cur fcn arg1 arg2 stack k ≡ (
          minus_one,
          advance k
              (set k.procs i
                (record (claim (proc_at k.procs i) k.nextpid) { kstack = 0; state = unused }))
              s,
        )
    unfolding clone
    clone_no_stack fcn arg1 arg2 stack s e = rw free (rw (alloc_at-none k i s inside e))

    -- No address space: the page of the kernel stack goes back, and the slot is UNUSED again.
    pub fork_no_copy :
        (page : ℕ) (s s' : State)
        → kalloc k.env ≡ (some page, s)
        → copyuvm (proc_at k.procs cur).pgdir (proc_at k.procs cur).sz s ≡ (none, s')
        → fork v cur k ≡ (
          minus_one,
          advance k
              (set k.procs i (record (fresh k i page) { pgdir = 0; kstack = 0; state = unused }))
              (kfree page s'),
        )
    unfolding fork
    fork_no_copy page s s' e f = rw free (
        rw (alloc_at-some k i page s inside e)
          (rw (parent_kept (fresh k i page)) (rw f (rw (proc_at-set_self, inside) (rw set-set)))))

  -- No free slot: nothing changes.
  pub fork_full :
      (cur : ℕ) (k : Kernel State) → find_unused k.procs ≡ none → fork v cur k ≡ (minus_one, k)
  unfolding fork
  fork_full cur k h = rw h

  pub clone_full :
      (cur fcn arg1 arg2 stack : ℕ) (k : Kernel State)
      → find_unused k.procs ≡ none
      → clone v cur fcn arg1 arg2 stack k ≡ (minus_one, k)
  unfolding clone
  clone_full cur fcn arg1 arg2 stack k h = rw h
