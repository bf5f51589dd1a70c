-- ===== src/Protocol/Err.antt =====
-- The response and error codes of inc/protocol.h.
use demotool.Base.{ℕ}

abbrev pub ok : ℕ
ok = 0

abbrev pub not_implemented : ℕ
not_implemented = 1

abbrev pub malloc : ℕ
malloc = 1001

abbrev pub openlibrary : ℕ
openlibrary = 1004

abbrev pub file_open : ℕ
file_open = 1006

abbrev pub file_io : ℕ
file_io = 1007

abbrev pub no_plugin : ℕ
no_plugin = 1009

abbrev pub exec : ℕ
exec = 1010

abbrev pub run : ℕ
run = 1011

abbrev pub hdr_tag : ℕ
hdr_tag = 1020

abbrev pub hdr_len : ℕ
hdr_len = 1022

abbrev pub hdr_invalid : ℕ
hdr_invalid = 1023

abbrev pub recv : ℕ
recv = 2001

abbrev pub send : ℕ
send = 2002

abbrev pub adf_file_size : ℕ
adf_file_size = 3000

abbrev pub create_msgport : ℕ
create_msgport = 0x0001_0000

abbrev pub create_ioreq : ℕ
create_ioreq = 0x0002_0000

abbrev pub opendevice : ℕ
opendevice = 0x0003_0000

abbrev pub disk_device : ℕ
disk_device = 0x0004_0000

abbrev pub disk_io : ℕ
disk_io = 0x0005_0000

abbrev pub disk_sector_len : ℕ
disk_sector_len = 0x0006_0000

abbrev pub client : ℕ
client = 0x8000_0000

abbrev pub socket_open : ℕ
socket_open = 2000

abbrev pub connect_timeout : ℕ
connect_timeout = 2003

abbrev pub fcntl : ℕ
fcntl = 2004

abbrev pub dns : ℕ
dns = 2005

abbrev pub select : ℕ
select = 2006

abbrev pub connect : ℕ
connect = 2007

abbrev pub getsockopt : ℕ
getsockopt = 2008

abbrev pub connect_other : ℕ
connect_other = 2009
