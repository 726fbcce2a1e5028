-- ===== src/Kernel/State.antt =====
-- Assign4/kernel.c: the kernel's data. `Hardware` holds what kernel.h, lib.h, x86.h and k-hardware.c
-- give it: the sizes, the address macros, and the operations on physical memory and page tables.
use Prim.Native.Nat.{bit_and, bit_or}
use systems_programming.Prelude.{
  ℕ, ◌+◌, ◌^◌, ◌-◌, ◌%◌, Bool, true, false, not, ◌&&◌, Option, ◌==◌, ltb, update,
}

-- `pageinfo[pn].owner`: PO_RESERVED, PO_KERNEL, or a number from 0, where 0 is PO_FREE.
pub data Owner : Type 0 where
  reserved kernel_owned : Owner
  pid_owner : ℕ → Owner

abbrev pub po_free : Owner
po_free = pid_owner 0

abbrev pub owner_eq : Owner → Owner → Bool
owner_eq reserved reserved = true
owner_eq kernel_owned kernel_owned = true
owner_eq (pid_owner a) (pid_owner b) = a == b
owner_eq _ _ = false

-- `physical_pageinfo`; the `int8_t` reference count is its bit pattern, below 256.
pub record PageInfo : Type 0 where
  pub owner : Owner
  pub refcount : ℕ

abbrev pub inc_int8 : ℕ → ℕ
inc_int8 n = (n + 1) % 2 ^ 8

abbrev pub dec_int8 : ℕ → ℕ
dec_int8 n = (n + 2 ^ 8 - 1) % 2 ^ 8

-- `x > c` on the signed value of the pattern `x`, for a `c` of at least 0.
abbrev pub int8_above : ℕ → ℕ → Bool
int8_above c n = ltb c n && ltb n (2 ^ 7)

pub data ProcState : Type 0 where
  free runnable blocked broken : ProcState

abbrev pub is_free : ProcState → Bool
is_free free = true
is_free _ = false

abbrev pub is_runnable : ProcState → Bool
is_runnable runnable = true
is_runnable _ = false

-- The trap numbers that `exception` tells apart.
pub data Interrupt : Type 0 where
  sys_panic sys_getpid sys_yield sys_page_alloc timer pagefault sys_fork sys_exit : Interrupt
  other : ℕ → Interrupt

-- The registers that the kernel reads or writes.
pub record Registers : Type 0 where
  pub eax : ℕ
  pub esp : ℕ
  pub eip : ℕ
  pub intno : Interrupt
  pub err : ℕ

pub record Proc : Type 0 where
  pub pid : ℕ
  pub state : ProcState
  pub pagetable : ℕ
  pub registers : Registers

-- `vamapping`; `pn` is `none` where the source has a negative page number.
pub record Vamapping : Type 0 where
  pub pn : Option ℕ
  pub pa : ℕ
  pub perm : ℕ

-- The console: a function from positions to cells. CPOS and console_printf are lib.h's; a line of text
-- is what `label` or `title` makes of the console.
abbrev pub Console : Type 0
Console = ℕ → ℕ

pub record Screen : Type 0 where
  pub cpos : ℕ → ℕ → ℕ
  -- console_printf(CPOS(row, 3), 0x0F00, "0x%06X ", n)
  pub label : ℕ → ℕ → Console → Console
  -- the headings, the one of the process that is given
  pub title : Console → Console
  pub title_for : ℕ → Console → Console

-- The locals of memshow_virtual_animate that stay.
pub record Animation : Type 0 where
  pub last_ticks : ℕ
  pub showing : ℕ

pub record Hardware (Memory : Type 0) : Type 0 where
  pub nproc : ℕ
  pub npages : ℕ
  pub page_size : ℕ
  pub memsize_physical : ℕ
  pub memsize_virtual : ℕ
  pub proc_start_addr : ℕ
  pub kernel_start_addr : ℕ
  pub kernel_end : ℕ
  pub kernel_stack_top : ℕ
  pub kernel_pagetable : ℕ
  pub pte_p : ℕ
  pub pte_w : ℕ
  pub pte_u : ℕ
  pub pfe_user : ℕ
  pub entry_size : ℕ
  pub pagetable_entries : ℕ
  pub page_number : ℕ → ℕ
  pub page_address : ℕ → ℕ
  pub pte_addr : ℕ → ℕ
  pub is_reserved : ℕ → Bool
  -- virtual_memory_lookup(pagetable, va) and virtual_memory_map(pagetable, va, pa, sz, perm)
  pub lookup : Memory → ℕ → ℕ → Vamapping
  pub map_pages : Memory → ℕ → ℕ → ℕ → ℕ → ℕ → Memory
  -- memcpy(dst, src, n), and memset of a page table's entries to 0
  pub copy_memory : Memory → ℕ → ℕ → ℕ → Memory
  pub clear_entries : Memory → ℕ → Memory
  -- pagetable->entry[i], read and written
  pub load_entry : Memory → ℕ → ℕ → ℕ
  pub store_entry : Memory → ℕ → ℕ → ℕ → Memory
  pub screen : Screen

-- The globals of kernel.c, with the memory, the page-table register and the console that its calls
-- change, and the locals of memshow_virtual_animate that stay.
pub record Kernel (Memory : Type 0) : Type 0 where
  pub processes : ℕ → Proc
  pub current : ℕ
  pub ticks : ℕ
  pub pageinfo : ℕ → PageInfo
  pub memory : Memory
  pub active_pagetable : ℕ
  pub console : Console
  pub animation : Animation

module _ {Memory : Type 0} where
  abbrev pub set_state : Kernel Memory → ℕ → ProcState → Kernel Memory
  set_state k i s = record k {
    processes = update k.processes i (record (k.processes i) { state = s });
  }

  abbrev pub set_page : Kernel Memory → ℕ → PageInfo → Kernel Memory
  set_page k i info = record k { pageinfo = update k.pageinfo i info }

  abbrev pub set_eax : Kernel Memory → ℕ → ℕ → Kernel Memory
  set_eax k i v = record k {
    processes =
        update k.processes i
          (record (k.processes i) { registers = record (k.processes i).registers { eax = v } });
  }

-- `vam.perm && (vam.perm & PTE_W)`
abbrev pub is_writable : ℕ → ℕ → Bool
is_writable pte_w perm = not (perm == 0) && not (bit_and perm pte_w == 0)

abbrev pub user_rw : {Memory : Type 0} → Hardware Memory → ℕ
user_rw hw = bit_or (bit_or hw.pte_p hw.pte_w) hw.pte_u
