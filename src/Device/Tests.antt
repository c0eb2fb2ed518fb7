-- ===== src/Device/Tests.antt =====
-- A lamp on a network that answers, and one whose login is refused.

use kasa_exporter.Base.Int.{pos}
use kasa_exporter.Connect.{Plan}
use kasa_exporter.Connect.Tests.{refusing_net, nobody, lamp_host}
use kasa_exporter.Device.{Device, new_device, read_device}
use kasa_exporter.Device.Memory.{Remembers, read-Remembers}

abbrev lamp : Device Plan
lamp = new_device lamp_host nobody (pos 5_000_000_000)

read-Remembers_example :
    Remembers refusing_net lamp
      (read_device refusing_net 0 lamp).0
      (read_device refusing_net 0 lamp).1
read-Remembers_example = read-Remembers refusing_net 0 lamp
