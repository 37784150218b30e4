-- ===== src/Examples/Channels.antt =====
-- IPC channels at concrete inputs.
use rust_so_kernel.Prelude.{
  ℕ, ◌≡◌, refl, none, some, List, [], ◌∷◌, arith, some_inj, ◌==◌, if◌then◌else◌, Bool-cases, inl,
  inr, sym, ◌∙◌, ap,
}
use rust_so_kernel.Ipc.{
  Message, Channel, ChannelTable, message, payload, new_ring, push, pop, new_channel, new_table,
  alloc, alloc_from, find_by_path,
}
use rust_so_kernel.Ipc.Ring.{pushes, pops, run_ring, run_queue, new_ring-run_queue}
use rust_so_kernel.Ipc.Table.{IsId, Allocated, alloc-Allocated}
use rust_so_kernel.Ipc.Paths.{IsPath, IsNamed, Scanned, path_buf, find_by_path-Scanned}

abbrev hello : Message
unfolding message
hello = message 1 (104 ∷ 105 ∷ [])

hello_reads : payload hello ≡ 104 ∷ 105 ∷ []
unfolding payload message hello
hello_reads = refl

new_ring-run_queue_example :
    run_ring (pops ∷ pushes hello ∷ pops ∷ []) new_ring
    ≡ run_queue (pops ∷ pushes hello ∷ pops ∷ []) []
new_ring-run_queue_example = new_ring-run_queue (pops ∷ pushes hello ∷ pops ∷ [])

-- The last id is the next one, and its slot is taken.
abbrev nearly : ChannelTable
unfolding new_channel
nearly = record { slots = λ j. if j == 63 then some new_channel else none; next_id = 63 }

nearly_allocates : (alloc nearly).0 ≡ some 1
unfolding alloc alloc_from nearly
nearly_allocates = refl

alloc-Allocated_example :
    Allocated nearly.slots (alloc nearly).0 (alloc nearly).1 × IsId (alloc nearly).1.next_id
unfolding nearly
alloc-Allocated_example =
    alloc-Allocated nearly (record { above = omega arith; below = omega arith })

abbrev path : List ℕ
path = 47 ∷ 119 ∷ []

abbrev server : Channel
unfolding new_channel path_buf
server = record new_channel { bound_path = some (path_buf path) }

abbrev served : ChannelTable
served = record { slots = λ j. if j == 5 then some server else none; next_id = 6 }

path-IsPath : IsPath path
path-IsPath = record { short = omega arith; no_zero = (omega arith, (omega arith, tt)) }

served-IsNamed : IsNamed served
unfolding server
served-IsNamed = record {
  paths = λ id c b used bound. elim (Bool-cases (id == 5)) [
    | inl here ↦ (
      path,
      path-IsPath,
      some_inj (sym bound ∙ sym (ap (λ (c : Channel). c.bound_path) (some_inj (rw here at used)))),
    )
    | inr other ↦ absurd (let h = rw other at used in cc)
  ];
}

served_found : find_by_path path served ≡ some 5
unfolding find_by_path rust_so_kernel.Ipc.find_from rust_so_kernel.Ipc.is_bound_to
    rust_so_kernel.Ipc.same_bytes path_buf server new_channel
served_found = refl

find_by_path-Scanned_example : Scanned served path 0 64 (find_by_path path served)
find_by_path-Scanned_example = find_by_path-Scanned path served served-IsNamed path-IsPath
