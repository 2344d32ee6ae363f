-- ===== src/Fs/Description.antt =====
-- fs/vfs.hpp: the part of `vfs::FileDescription` that the handlers read. The flag word is kept decoded:
-- `O_ACCMODE`'s field, and the two flags that change what a call does.
use saba_os.Base.{Bool, true, false}

pub data AccessMode : Type 0 where
  rdonly wronly rdwr : AccessMode

pub record FileFlags : Type 0 where
  pub mode : AccessMode
  pub nonblock : Bool
  pub append : Bool

unfoldable pub can_read : FileFlags → Bool
can_read f = elim f.mode [ rdonly ↦ true | rdwr ↦ true | wronly ↦ false ]

unfoldable pub can_write : FileFlags → Bool
can_write f = elim f.mode [ rdonly ↦ false | rdwr ↦ true | wronly ↦ true ]
