-- ===== src/Tests/Disks.antt =====
-- The disk layers over a disk in memory.
use libusbhsfs.Base.{
  ◌+◌, ◌-◌, ◌*◌, ◌/◌, ◌%◌, ◌^◌, ◌≡◌, refl, true, false, some, arith, ltb, if◌then◌else◌,
}
use libusbhsfs.Bytes.{Buf, memcpy, shift}
use libusbhsfs.Usb.{State, Usb, success, alloc, free}
use libusbhsfs.Mount.Context.{NtfsDd}
use libusbhsfs.Disk.{Blocks, IsReadable}
use libusbhsfs.Disk.Ntfs.{Doubles, Geometry, NtfsDevice, returns, read_bytes, seek_pos, seek_cur}
use libusbhsfs.Disk.Ntfs.Range.{IsExact, IsInside}
use libusbhsfs.Disk.Ntfs.Reads.{read_bytes-reads}
use libusbhsfs.Disk.Ntfs.Seek.{seek_pos-back}

-- The services' state is the disk itself.
abbrev services : Usb Buf
services = record {
  hos_before_2_0_0 = false;
  if_ctrl_xfer = λ setup w. (record { rc = success; reply = λ _. 0; size = setup.length }, w);
  ep_submit_request = λ ep cmd size timeout mapped buf w. ((success, size, buf), w);
  ep_post_buffer_async = λ ep size buf w. (success, w);
  event_wait = λ ep timeout buf w. ((success, buf), w);
  event_clear = λ ep w. w;
  ep_get_xfer_report =
      λ ep w. (record { rc = success; count = 1; transferred = 0; res = success }, w);
  allocate = λ n w. (true, w);
  random_get = λ w. (5, w);
  sleep = λ n w. w;
}

abbrev memory : Blocks Buf
memory = record {
  read = λ b addr n s. some ((true, memcpy b 0 (shift (addr * 512) s.world) (n * 512)), s);
  write =
      λ b addr n s. some ((true, b), record s { world = memcpy s.world (addr * 512) b (n * 512) });
}

abbrev disk_of : State Buf → Buf
disk_of s = s.world

abbrev Always : State Buf → Type 0
Always s = Unit

memory-IsReadable : IsReadable services memory disk_of 512 64 Always
unfolding alloc free
memory-IsReadable = record {
  reads = λ b addr n s ready fits room. (s, tt, refl, refl);
  allocates = λ n s ready. (tt, refl);
  frees = λ s ready. (tt, refl);
}

abbrev exact_doubles : Doubles
exact_doubles = record { floor_quotient = λ a b. a / b; ceil_quotient = λ a b. (a + b - 1) / b }

exact_doubles-IsExact : IsExact exact_doubles
exact_doubles-IsExact = record { floors = λ a b far pos. refl; ceils = λ a b far pos. refl }

abbrev descriptor : NtfsDd
descriptor = record { vbr = λ _. 0; sector_start = 2 }

abbrev geometry : Geometry
geometry = record {
  sector_offset = 0;
  sector_size = 512;
  sector_count = 62;
  pos = 10;
  len = 31744;
  ino = 0;
}

abbrev device : NtfsDevice
device = record {
  dd = some descriptor;
  geometry = geometry;
  is_open = true;
  is_block = true;
  is_read_only = false;
  is_dirty = false;
  is_sync = false;
}

-- The numbers count up from the start of the disk.
abbrev counting_disk : State Buf
counting_disk = record { world = λ i. i % 256; xfer_buf = λ _. 0; medium_present = true; live = 0 }

-- 700 bytes from byte 100 on.
part-IsInside : IsInside descriptor geometry 64 100 700
part-IsInside = record {
  big = omega arith;
  short = omega arith;
  some_bytes = omega arith;
  far = omega arith;
  long = omega arith;
  inside = omega arith;
  small = omega arith;
}

read_bytes-reads_example :
    (s' : State Buf) × Unit {0}
    × (disk_of s' ≡ disk_of counting_disk)
    × (read_bytes services exact_doubles memory device 100 700 (λ _. 0) (λ _. 7) counting_disk
        ≡ some (
          (returns 700, memcpy (λ _. 7) 0 (shift (2 * 512 + 100) (disk_of counting_disk)) 700),
          s',
        ))
read_bytes-reads_example =
    read_bytes-reads services exact_doubles memory disk_of device descriptor 64 100 700 Always
      (λ _. 0) (λ _. 7) counting_disk memory-IsReadable exact_doubles-IsExact refl part-IsInside
      (λ n. refl) tt

-- 20 bytes back from byte 10.
seek_pos-back_example :
    seek_pos geometry (2 ^ 64 - 20) seek_cur
    ≡ some (if ltb geometry.pos 20 then geometry.len else geometry.pos - 20)
seek_pos-back_example =
    seek_pos-back geometry 20 (omega arith) (omega arith) (omega arith) (omega arith)

goes_to_the_end : seek_pos geometry (2 ^ 64 - 20) seek_cur ≡ some 31744
unfolding seek_pos
goes_to_the_end = refl
