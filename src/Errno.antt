-- ===== src/Errno.antt =====
-- include/errno.h: the codes that the system calls return negated.
use ze_ospi.Base.{ℕ}

abbrev pub ebadf : ℕ
ebadf = 1

abbrev pub eacces : ℕ
eacces = 2

abbrev pub enosys : ℕ
enosys = 3

abbrev pub epnull : ℕ
epnull = 4

abbrev pub esizeb : ℕ
esizeb = 5

abbrev pub enaccb : ℕ
enaccb = 6

abbrev pub entask : ℕ
entask = 7

abbrev pub enmphp : ℕ
enmphp = 8

abbrev pub enspid : ℕ
enspid = 9

abbrev pub enepte : ℕ
enepte = 10

abbrev pub einvsn : ℕ
einvsn = 11

abbrev pub esinit : ℕ
esinit = 12

abbrev pub eninit : ℕ
eninit = 13

abbrev pub esdest : ℕ
esdest = 14

abbrev pub esnown : ℕ
esnown = 15

abbrev pub enomem : ℕ
enomem = 16

abbrev pub ehlimi : ℕ
ehlimi = 17
