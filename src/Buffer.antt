-- ===== src/Buffer.antt =====
-- frame/interface/buffer.h: `CBuffer`, a byte buffer that grows. `base` is the memory that `base_`
-- points to. What `malloc` and `realloc` leave in memory that was not written is the parameter
-- `fresh`, the bytes for each size. A write outside of the memory is a fault, `none`.
pub mod Append
mod Tests
use ape_cpp_server.Base.{
  ltb, leb, if◌then◌else◌, length, take, drop, add32, sub32, ℕ, ◌+◌, ◌-◌, Option, none, some, List,
  ◌++◌,
}

pub record Buffer : Type 0 where
  pub base : List ℕ
  pub capacity : ℕ
  pub loc : ℕ

-- `realloc`: the bytes that fit stay.
abbrev pub realloc : (ℕ → List ℕ) → ℕ → List ℕ → List ℕ
realloc fresh n mem = take n mem ++ fresh (n - length mem)

module _ (fresh : ℕ → List ℕ) where
  pub new_buffer : ℕ → Buffer
  new_buffer capacity = record { base = fresh capacity; capacity = capacity; loc = 0 }

  -- `add_capacity ()`
  unfoldable pub double_capacity : Buffer → Buffer
  double_capacity b =
      let capacity = add32 b.capacity b.capacity in
      record b { capacity = capacity; base = realloc fresh capacity b.base }

  -- `add_capacity (nLeft)`
  pub add_capacity : ℕ → Buffer → Buffer
  add_capacity n b =
      let capacity = add32 b.capacity n in
      record b { capacity = capacity; base = realloc fresh capacity b.base }

-- `memcpy (base_ + loc_, p, len)` and `loc_ += len`
abbrev pub write : List ℕ → Buffer → Option Buffer
write p b =
    if leb (b.loc + length p) (length b.base)
    then some (record b {
      base = take b.loc b.base ++ (p ++ drop (b.loc + length p) b.base);
      loc = add32 b.loc (length p);
    })
    else none

unfoldable pub append : (ℕ → List ℕ) → List ℕ → Buffer → Option Buffer
unfolding add_capacity
append fresh p b =
    if ltb b.capacity (add32 b.loc (length p))
    then write p (add_capacity fresh (add32 (b.capacity + length p) b.capacity) b)
    else write p b

pub inc_loc : ℕ → Buffer → Buffer
inc_loc n b = record b { loc = add32 b.loc n }

unfoldable pub reset_loc : ℕ → Buffer → Buffer
reset_loc n b = record b { loc = n }

-- `capacity ()` is the room that is left.
unfoldable pub room : Buffer → ℕ
room b = sub32 b.capacity b.loc

-- the `len ()` bytes from `base ()` to `top ()`
abbrev pub contents : Buffer → List ℕ
contents b = take b.loc b.base
