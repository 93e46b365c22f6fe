-- ===== src/Intercept/Vectors.antt =====
-- pdwfs.c, the vectored calls on a descriptor.
use pdwfs.Base.{List}
use pdwfs.Base.Int.{ℤ}
use pdwfs.Machine.{Cmd}
use pdwfs.Machine.Host.{Env, IoVec}
use pdwfs.Intercept.Guards.{on_fd, write_vec, read_vec}
use pdwfs.Libc.Descriptors.{
  libc_preadv, libc_preadv64, libc_pwritev, libc_pwritev64, libc_readv, libc_writev,
}

module _ ⦃env : Env⦄ where
  unfoldable pub preadv : ℤ → List IoVec → ℤ → ℤ → Cmd ℤ
  preadv fd iov iovcnt offset =
      on_fd fd (libc_preadv fd iov iovcnt offset)
        (read_vec (λ lens. env.go_layer.preadv fd lens offset) iov iovcnt)

  unfoldable pub preadv64 : ℤ → List IoVec → ℤ → ℤ → Cmd ℤ
  preadv64 fd iov iovcnt offset =
      on_fd fd (libc_preadv64 fd iov iovcnt offset)
        (read_vec (λ lens. env.go_layer.preadv fd lens offset) iov iovcnt)

  unfoldable pub pwritev : ℤ → List IoVec → ℤ → ℤ → Cmd ℤ
  pwritev fd iov iovcnt offset =
      on_fd fd (libc_pwritev fd iov iovcnt offset)
        (write_vec (λ bss. env.go_layer.pwritev fd bss offset) iov iovcnt)

  unfoldable pub pwritev64 : ℤ → List IoVec → ℤ → ℤ → Cmd ℤ
  pwritev64 fd iov iovcnt offset =
      on_fd fd (libc_pwritev64 fd iov iovcnt offset)
        (write_vec (λ bss. env.go_layer.pwritev fd bss offset) iov iovcnt)

  unfoldable pub readv : ℤ → List IoVec → ℤ → Cmd ℤ
  readv fd iov iovcnt =
      on_fd fd (libc_readv fd iov iovcnt) (read_vec (λ lens. env.go_layer.readv fd lens) iov iovcnt)

  unfoldable pub writev : ℤ → List IoVec → ℤ → Cmd ℤ
  writev fd iov iovcnt =
      on_fd fd (libc_writev fd iov iovcnt)
        (write_vec (λ bss. env.go_layer.writev fd bss) iov iovcnt)
