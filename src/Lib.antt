-- ===== src/Lib.antt =====
-- T6 KVM: the broker that shows a capture device to remote viewers.
--
-- A capture worker (native/, in C) writes encoded pictures to a pipe. The broker reads them, keeps a
-- record of them, and hands each to the clients that are connected to a Unix socket. A client that falls
-- behind loses a whole group of pictures and is sent the next one from its key picture on. The KVM
-- daemon is such a client, and lets one viewer at a time control the target.
--
-- The parts, the source of each and its modules:
--   * Frames, src/t6_kvm/protocol.py. Protocol has the constants, `Frame` and its flags; Protocol/Nal
--     `nal_types`; Protocol/Validate `Frame.validate`; Protocol/Wire `Frame.pack` and `read_frame` over
--     the header's eleven fields.
--   * The recovery gate, `RecoveryGate` of src/t6_kvm/protocol.py: Gate has `reset` and `accept`.
--   * The bounded queue, src/t6_kvm/buffer.py: Buffer has `FrameBuffer`, `reset`, `put` and `get`.
--   * Control, src/t6_kvm/ownership.py: Ownership has `Owner` (`admit` in its stretches `admit`,
--     `resume` and `give_up`, and `release`), Ownership/Hid `HidOwner`.
--   * The broker, src/t6_kvm/daemon.py: Broker has its state and `request_key`, Broker/Publish
--     `status` and `publish`, Broker/Clients `serve_client` (`connect`, `command`, `send` and
--     `disconnect`), Broker/Supervise `worker_loop` (`begin_life` and `on_event`) and `stop_child`.
--     Broker/Reachable has the steps of all these tasks, in any order.
--   * The configuration, src/t6_kvm/config.py: Config has `Config`, its defaults and `Config.validate`,
--     Config/Paths what it asks of a path. Config/Start has `load`, `native_argv` and the options of `main`
--     in src/t6_kvm/daemon.py.
--   * The KVM daemon's reader, `T6StreamerClient` of src/t6_kvm/kvmd_adapter.py: Viewer/Client has
--     `request_key` and `receive`.
--   * The last queue before a viewer, `VncFrameBuffer` of src/t6_kvm/kvmd_adapter.py, and the dictionaries
--     `Frame.kvmd` and `Frame.from_kvmd` of src/t6_kvm/protocol.py: Viewer.
--   * The decoder for viewers without H.264, `T6JpegStreamerClient` of src/t6_kvm/kvmd_adapter.py: Jpeg
--     has its collector, its receiver and its tiles. The package av is the parameter `Decoder`.
--   * The sockets' endpoints, `OwnedSocket` of src/t6_kvm/daemon.py: Endpoint has `bind` and `close`.
--     What other processes do between two of its calls is an argument.
--   * The dump of a stream, tools/dump_frames.py: Dump has its loop and its summary.
--   * The panel, src/t6_kvm/panel.py: Panel/Access has `auth`, Panel/Update `update` and `settings`,
--     Panel/Backups the rotation of its snapshots, Panel/Settings the regular expressions on the bitrate
--     in streamer.toml and main.yaml. KVMD's accounts and Python's json are the parameter `Libraries`,
--     and any write of `update` may raise. Panel/Update has `continuous_updates_enabled` of src/t6_kvm/vnc_transport.py as well.
--   * The gadget, tools/gadget.py: Gadget has `validate_owner`, `allowed_tree` and `cleanup`, Gadget/Start
--     `check_empty` and `start`. What stands in the file system is a record; what is done there is the
--     list of the calls, of which any may fail.
--   * The inventory of a host, src/t6_kvm/preflight.py: Preflight has `listening_ports`, the blockers and
--     the exit status.
--   * The administration tool, tools/admin.py: Admin has the file system that it works on, Admin/Call its
--     calls, Admin/Checks `no_symlink`, `atomic`, `owned_dir`, `read_manifest` and the other shared parts,
--     Admin/Backup `backup_file` and the operations `backup` and `restore`, Admin/Release `switch_release`
--     and `rollback`, Admin/Stage `check_stage`, Admin/Install `install`, Admin/Uninstall `unit_conflicts`
--     and `uninstall`, Admin/Main `main`. A world is the nodes of a file system with the commands that were
--     run; each call that changes it has a number, and any of them may fail by it. `Host` has what the tool
--     is told: which calls fail, the clock, the units that run, the accounts, the links that
--     `systemctl disable` removes, json, SHA-256 and base64.
--   * The test screen, tools/diagnostics/mouse_screen.py: Screen has `rect`, `text` and the part of a frame
--     that is copied, Screen/Input `inputs`, Screen/Scene the calls of a frame. A buffer is the colour of each
--     pixel, a dictionary of rows a function.
--   * Value has the values that Python's json and tomllib build, Base what the modules share, Tests
--     runs at concrete inputs.
-- The gate is used by the queue and by the broker, the queue by the broker for each client, and the
-- frames by all of them.
--
-- How the code is represented:
--   * A byte is a number; a stream is the list of the bytes that will arrive before it ends, so a read
--     beyond them is Python's IncompleteReadError. Python's whole numbers are natural numbers; `struct`
--     raises where one does not fit its field.
--   * A float is a whole number of millionths.
--   * A call that raises is a result, `err` of the exception; a method that has changed its object
--     before it raises returns the object and the result.
--   * A time is a whole number of microseconds, taken by the operation that reads the clock. Where a
--     method reads the clock twice without a wait in between, both readings are the same. A rate is
--     kept as a quotient that is not rounded.
--   * A task runs without interruption from one `await` to the next. Each such stretch is one step; a
--     timeout and a cancellation are steps that can be taken at any moment at which the task waits.
--   * An object is known by a number: leases, sockets and clients. The callback of a queue is a count
--     of its calls, which the broker carries out behind the loop over its queues.
--   * Python's json module is the parameter `Json`.
-- Recursion is on the structure of a list. What runs on fuel is given enough: the cuts of a picture
-- get its size, the digits of a number the number. A path is resolved over at most forty links, the most
-- that the kernel follows.
--
-- Not modelled: the HTTP state and the life cycle of the sockets' servers, which call asyncio; the three
-- functions that hand a client's lease to its `Owner`; of src/t6_kvm/vnc_transport.py the options of
-- a socket; of the panel the tables of ss and the journal in `status`, `atomic`, and the page; of the
-- inventory what only reports; the contents of the gadget's attributes; the other tools, among them
-- tools/patch_kvmd.py; and the worker itself, which is C code behind its pipe. Log lines are left out, and
-- so are the group of a directory in tools/admin.py and what its commands groupadd and useradd write.
pub mod Base
pub mod Value
pub mod Protocol
pub mod Gate
pub mod Buffer
pub mod Ownership
pub mod Broker
pub mod Config
pub mod Viewer
pub mod Jpeg
pub mod Endpoint
pub mod Admin
pub mod Dump
pub mod Gadget
pub mod Panel
pub mod Preflight
pub mod Screen
pub mod Tests
