-- ===== src/HandlerAlloc.antt =====
-- frame/interface/handleralloc.h: `CHandlerAllocator`, with the memory that handlers have of it. What
-- `operator new` gives is a block with a number of its own.
pub mod Disjoint
mod Tests
use ape_cpp_server.Base.{
  ltb, if◌then◌else◌, not, ◌&&◌, ℕ, zero, suc, ◌+◌, Bool, true, false, List, [], ◌∷◌,
}

pub data Block : Type 0 where
  storage : Block
  heap : ℕ → Block

-- `next_block` is the number of the next block of `operator new`.
pub record HandlerAllocator : Type 0 where
  pub in_use : Bool
  pub next_block : ℕ

abbrev pub new_allocator : HandlerAllocator
new_allocator = record { in_use = false; next_block = 0 }

abbrev pub storage_size : ℕ
storage_size = 160

pub allocate : ℕ → HandlerAllocator → Block × HandlerAllocator
allocate size a =
    if not a.in_use && ltb size storage_size
    then (storage, record a { in_use = true })
    else (heap a.next_block, record a { next_block = a.next_block + 1 })

pub deallocate : Block → HandlerAllocator → HandlerAllocator
deallocate storage a = record a { in_use = false }
deallocate (heap n) a = a

-- What asio does: memory for a handler, and the memory of one of the handlers given back.
pub data HandlerEvent : Type 0 where
  asks : ℕ → HandlerEvent
  gives_back : ℕ → HandlerEvent

abbrev pub take_block : Block × HandlerAllocator → List Block → List Block × HandlerAllocator
take_block (b, a) live = (b ∷ live, a)

-- the handlers' memory without the `k`-th, which is given back
pub give_back : ℕ → List Block → HandlerAllocator → List Block × HandlerAllocator
unfolding deallocate
give_back k [] a = ([], a)
give_back zero (b ∷ live) a = (live, deallocate b a)
give_back (suc k) (b ∷ live) a = let (rest, a') = give_back k live a in (b ∷ rest, a')

pub handle_event : HandlerEvent → List Block × HandlerAllocator → List Block × HandlerAllocator
unfolding allocate give_back
handle_event (asks size) (live, a) = take_block (allocate size a) live
handle_event (gives_back k) (live, a) = give_back k live a

unfoldable pub handle_all :
    List HandlerEvent → List Block × HandlerAllocator → List Block × HandlerAllocator
unfolding handle_event
handle_all [] s = s
handle_all (e ∷ es) s = handle_all es (handle_event e s)
